-- ===== src/Virtual/Client/Close.antt =====
-- `Close` of virtual/client.go.
use bfcp.Base.{
  ◌&&◌, nat_eq, arith, ℕ, not, if◌then◌else◌, Bool, true, false, ◌≡◌, refl, sym, ap, ◌∙◌, List, [],
  ◌∷◌, ◌++◌, append_assoc, append-nil, drop-append, subst,
}
use bfcp.Types.Primitive
use bfcp.Client
use bfcp.Client.{Event, sent, transport_closed, on_disconnected, Client, emit, next_transaction_id}
use bfcp.Client.Calls.{Script, disconnect, goodbye, request_message}
use bfcp.Client.Calls
use bfcp.Virtual.Client.{
  VirtualClient, hook, hooks, news, release_all_floors, disconnected_by, connection_closed,
  disconnected, close,
}
use bfcp.Virtual.Client.Disconnect.{disconnect-OnlySends, disconnected-lem}

connection_closed-lem :
    (v : VirtualClient)
    → connection_closed v
      ≡ hook on_disconnected (record v { client = Client.connection_closed v.client })
unfolding connection_closed hooks
connection_closed-lem v =
    let d = Client.connection_closed v.client in
    let new : news v.client d ≡ on_disconnected ∷ [] =
      unfold Client.connection_closed in drop-append v.client.log (on_disconnected ∷ []) in
    ap (λ es. hooks es (record v { client = d })) new

-- Whether there is a connection that `Close` ends.
abbrev pub ends_connection : VirtualClient → Bool
ends_connection v = not v.is_closed && v.has_client && v.client.is_connected

-- What the client does on its connection, and what happens to it.
abbrev pub farewell : (sends : Bool) → Client → List Event
farewell sends c0 =
    let (c, tx) = next_transaction_id c0 in
    (if sends then sent (request_message Primitive.goodbye tx c) ∷ [] else [])
    ++ (transport_closed ∷ on_disconnected ∷ [])

-- What `Close` has done, and left as it was.
pub record IsFarewell (sends : Bool) (v w : VirtualClient) : Type 0 where
  pub now_closed : w.is_closed ≡ true
  pub in_order :
      w.client.log ≡ v.client.log ++ (if ends_connection v then farewell sends v.client else [])
  pub told :
      w.log ≡ v.log ++ (if ends_connection v && v.is_connected then disconnected ∷ [] else [])
  pub same_floors : w.held_floors ≡ v.held_floors
  pub same_requests : w.active_requests ≡ v.active_requests
  pub still_requested : w.client.active_requests ≡ v.client.active_requests

if-IsFarewell :
    (sends : Bool) (v : VirtualClient) (b : Bool) (x y : VirtualClient)
    → (b ≡ true → IsFarewell sends v x)
    → (b ≡ false → IsFarewell sends v y)
    → IsFarewell sends v (if b then x else y)
if-IsFarewell sends v true x y h k = h refl
if-IsFarewell sends v false x y h k = k refl

-- A client without a connection.
same-IsFarewell :
    (sends : Bool) (v w : VirtualClient)
    → ends_connection v ≡ false
    → w ≡ record v { is_closed = true }
    → IsFarewell sends v w
same-IsFarewell sends v w none_ends same = subst (IsFarewell sends v) (sym same) (record {
  now_closed = refl;
  in_order = rw none_ends (sym (append-nil v.client.log));
  told = rw none_ends (sym (append-nil v.log));
  same_floors = refl;
  same_requests = refl;
  still_requested = refl;
})

closed_log :
    (sends : Bool) (c : Client)
    → c.is_connected ≡ true
    → (Client.connection_closed (Calls.disconnect sends c)).log ≡ c.log ++ farewell sends c
unfolding Client.connection_closed disconnect goodbye next_transaction_id
closed_log true c up =
    rw (up, disconnect, goodbye)
      (append_assoc
          (c.log
            ++ (sent (
                  request_message Primitive.goodbye (next_transaction_id c).1
                    (next_transaction_id c).0)
                ∷ []))
          (transport_closed ∷ []) (on_disconnected ∷ [])
        ∙ append_assoc c.log _ (transport_closed ∷ on_disconnected ∷ []))
closed_log false c up =
    rw (up, disconnect, goodbye) (append_assoc c.log (transport_closed ∷ []) (on_disconnected ∷ []))

ended-IsFarewell :
    (sends : Bool) (v : VirtualClient)
    → ends_connection v ≡ true
    → v.client.is_connected ≡ true
    → let d = Client.connection_closed (Calls.disconnect sends v.client) in
      IsFarewell sends v (hook on_disconnected (record v { is_closed = true; client = d }))
unfolding hook
ended-IsFarewell sends v ends up =
    let c = v.client in
    let log : (Client.connection_closed (Calls.disconnect sends c)).log
        ≡ c.log ++ (if ends_connection v then farewell sends c else []) =
      closed_log sends c up ∙ ap (λ b. c.log ++ (if b then farewell sends c else [])) (sym ends) in
    let kept : (Client.connection_closed (Calls.disconnect sends c)).active_requests
        ≡ c.active_requests =
      unfold Client.connection_closed in (disconnect-OnlySends sends c).same_requests in
    if-IsFarewell sends v v.is_connected _ _
      (λ was. record {
        now_closed = refl;
        in_order = log;
        told = rw ends (ap (λ b. v.log ++ (if b then disconnected ∷ [] else [])) (sym was));
        same_floors = refl;
        same_requests = refl;
        still_requested = kept;
      })
      (λ was_not. record {
        now_closed = refl;
        in_order = log;
        told = rw ends (
            sym (append-nil v.log)
            ∙ ap (λ b. v.log ++ (if b then disconnected ∷ [] else [])) (sym was_not));
        same_floors = refl;
        same_requests = refl;
        still_requested = kept;
      })

closing :
    (script : ℕ → Script) (v : VirtualClient)
    → (release_all_floors script (record v { is_closed = true })).0 ≡ record v { is_closed = true }
unfolding release_all_floors
closing script v = refl

if_not {ℓ} : {A : Type ℓ} (b : Bool) (x y : A) → b ≡ false → (if not b then x else y) ≡ x
if_not true x y h = absurd (let no : ⊥ = cc in no)
if_not false x y h = refl

disconnected_by-IsFarewell :
    (sends : Bool) (v : VirtualClient)
    → v.is_closed ≡ false
    → v.has_client ≡ true
    → IsFarewell sends v (disconnected_by sends (record v { is_closed = true }))
disconnected_by-IsFarewell sends v unclosed has =
    let v' : VirtualClient = record v { is_closed = true } in
    let d = Calls.disconnect sends v.client in
    let quiet = disconnected-lem sends v' in
    if-IsFarewell sends v v.client.is_connected _ _
      (λ up.
        subst (IsFarewell sends v)
          (sym (ap connection_closed quiet ∙ connection_closed-lem (record v' { client = d })))
          (ended-IsFarewell sends v (ground (arith, unclosed, has, up)) up))
      (λ off. same-IsFarewell sends v _ (ground (arith, off)) (
        quiet
        ∙ ap (λ c. record v' { client = c })
            (unfold disconnect in if_not v.client.is_connected _ _ off)))

-- `Close` ends the connection of an open client that is connected by a Goodbye, if the transport takes
-- it, and nothing else: it sends no FloorRelease, whatever floors the client holds. The transport is
-- closed, and `OnDisconnected` is called if the virtual client counted as connected; no callback tells
-- of a floor. Of any other client nothing is heard. In every case the client is closed afterwards, and
-- the floors and the requests stay in its tables: `ReleaseAllFloors` finds the client already closed.
pub close-IsFarewell :
    (script : ℕ → Script) (sends : Bool) (v : VirtualClient)
    → IsFarewell sends v (close script sends v)
unfolding close
close-IsFarewell script sends v =
    let v' : VirtualClient = record v { is_closed = true } in
    if-IsFarewell sends v v.is_closed v _
      (λ e. same-IsFarewell sends v v (ground (arith, e)) (ap (λ b. record v { is_closed = b }) e))
      (λ unclosed.
        if-IsFarewell sends v v.has_client _ v'
          (λ has.
            subst (IsFarewell sends v) (sym (ap (disconnected_by sends) (closing script v)))
              (disconnected_by-IsFarewell sends v unclosed has))
          (λ lacks. same-IsFarewell sends v v' (ground (arith, lacks)) refl))
