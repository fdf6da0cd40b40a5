-- ===== src/Virtual/Client/Disconnect.antt =====
-- `Disconnect` of client.go under a virtual client: what it gives to the transport, and that no hook
-- is called before the connection is closed.
use bfcp.Base.{
  nat_eq, not, if◌then◌else◌, Bool, true, false, ◌≡◌, refl, sym, ap, ◌∙◌, List, [], ◌∷◌, ◌++◌,
  append_assoc, append-nil, length, drop, drop-append, All, All-append,
}
use bfcp.Types.Primitive
use bfcp.Client.{Event, sent, transport_closed, Client, emit, next_transaction_id}
use bfcp.Client.Calls.{Script, disconnect, goodbye, request_message}
use bfcp.Client.Calls
use bfcp.Virtual.Client.{VirtualClient, hook, hooks, news, through}

-- An event that is given to the transport.
abbrev pub IsSending : Event → Type 0
IsSending (sent m) = Unit {0}
IsSending transport_closed = Unit {0}
IsSending _ = ⊥

hook-IsSending : (e : Event) (v : VirtualClient) → IsSending e → hook e v ≡ v
unfolding hook
hook-IsSending (sent m) v h = refl
hook-IsSending transport_closed v h = refl
hook-IsSending _ v h = absurd h

hooks-IsSending : (es : List Event) (v : VirtualClient) → All IsSending es → hooks es v ≡ v
unfolding hooks
hooks-IsSending [] v h = refl
hooks-IsSending (e ∷ es) v (here, h) =
    ap (hooks es) (hook-IsSending e v here) ∙ hooks-IsSending es v h

-- What `Disconnect` of the client does: it only sends, and the requests stay.
pub record OnlySends (c d : Client) : Type 0 where
  pub events : List Event
  pub in_order : d.log ≡ c.log ++ events
  pub are_sendings : All IsSending events
  pub same_requests : d.active_requests ≡ c.active_requests

same-OnlySends :
    (c d : Client) → d.log ≡ c.log → d.active_requests ≡ c.active_requests → OnlySends c d
same-OnlySends c d log requests = record {
  events = [];
  in_order = log ∙ sym (append-nil c.log);
  are_sendings = tt;
  same_requests = requests;
}

emit-OnlySends : (c d : Client) (e : Event) → IsSending e → OnlySends c d → OnlySends c (emit e d)
emit-OnlySends c d e is_sending h = record {
  events = h.events ++ (e ∷ []);
  in_order = ap (λ l. l ++ (e ∷ [])) h.in_order ∙ append_assoc c.log h.events (e ∷ []);
  are_sendings = All-append IsSending h.events (e ∷ []) h.are_sendings (is_sending, tt);
  same_requests = h.same_requests;
}

if_first-OnlySends :
    {A : Type 0} (b : Bool) (c : Client) (p q : Client × A)
    → OnlySends c p.0
    → OnlySends c q.0
    → OnlySends c (if b then p else q).0
if_first-OnlySends true c p q h k = h
if_first-OnlySends false c p q h k = k

goodbye-OnlySends : (sends : Bool) (c : Client) → OnlySends c (Calls.goodbye sends c).0
unfolding goodbye next_transaction_id
goodbye-OnlySends sends c =
    let (d, tx) = next_transaction_id c in
    let drawn = same-OnlySends c d refl refl in
    let bye = sent (request_message Primitive.goodbye tx d) in
    if_first-OnlySends (not c.is_connected) c _ _ (same-OnlySends c c refl refl)
      (if_first-OnlySends sends c _ _ (emit-OnlySends c d bye tt drawn) drawn)

if-OnlySends :
    (b : Bool) (c d e : Client) → OnlySends c d → OnlySends c e → OnlySends c (if b then d else e)
if-OnlySends true c d e h k = h
if-OnlySends false c d e h k = k

pub disconnect-OnlySends : (sends : Bool) (c : Client) → OnlySends c (Calls.disconnect sends c)
unfolding disconnect
disconnect-OnlySends sends c =
    if-OnlySends (not c.is_connected) c c _ (same-OnlySends c c refl refl)
      (emit-OnlySends c (Calls.goodbye sends c).0 transport_closed tt (goodbye-OnlySends sends c))

-- `Disconnect` alone calls no hook.
pub disconnected-lem :
    (sends : Bool) (v : VirtualClient)
    → (through (λ c. (Calls.disconnect sends c, tt {0})) v).0
      ≡ record v { client = Calls.disconnect sends v.client }
disconnected-lem sends v =
    let d = Calls.disconnect sends v.client in
    let o = disconnect-OnlySends sends v.client in
    let new : news v.client d ≡ o.events =
      ap (drop (length v.client.log)) o.in_order ∙ drop-append v.client.log o.events in
    ap (λ es. hooks es (record v { client = d })) new
    ∙ hooks-IsSending o.events (record v { client = d }) o.are_sendings
