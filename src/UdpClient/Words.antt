-- ===== src/UdpClient/Words.antt =====
-- What the log of a client of udpclient.go told the application of its floors, and what is claimed of
-- the requests in the table.
use bfcp.Base.{
  ℕ, ◌==◌, if◌then◌else◌, Bool, true, false, Option, none, some, ◌≡◌, refl, sym, ap, ◌∙◌, List, [],
  ◌∷◌, ◌++◌, nat_eq,
}
use bfcp.Base.Dict.{lookup}
use bfcp.Types.RequestStatus
use bfcp.Client.{ActiveFloorRequest}
use bfcp.UdpClient.{
  Event, sent, timer, on_floor_granted, on_floor_denied, on_floor_released, on_floor_status,
  on_error, UdpClient, emit, is_final,
}
use bfcp.UdpClient.Steps.{IsQuiet, sends, waits, observes, reports}

-- What an event tells the application of its own request for a floor: that it has the floor, or that
-- it has not.
abbrev pub word : (fid : ℕ) → Event → Option Bool
word fid (on_floor_granted f r) = if f == fid then some true else none
word fid (on_floor_denied f r) = if f == fid then some false else none
word fid (on_floor_released f) = if f == fid then some false else none
word fid (sent m) = none
word fid (timer w) = none
word fid (on_floor_status f b s) = none
word fid (on_error k i) = none

abbrev pub or_last : Option Bool → Option Bool → Option Bool
or_last w none = w
or_last w (some l) = some l

-- The last such event of the log.
abbrev pub last_word : (fid : ℕ) → List Event → Option Bool
last_word fid [] = none
last_word fid (e ∷ log) = or_last (word fid e) (last_word fid log)

pub or_last_assoc : (a b c : Option Bool) → or_last a (or_last b c) ≡ or_last (or_last a b) c
or_last_assoc a b none = refl
or_last_assoc a b (some l) = refl

pub or_last-none : (w : Option Bool) → or_last none w ≡ w
or_last-none none = refl
or_last-none (some l) = refl

pub last_word-append :
    (fid : ℕ) (log : List Event) (e : Event)
    → last_word fid (log ++ (e ∷ [])) ≡ or_last (last_word fid log) (word fid e)
last_word-append fid [] e = sym (or_last-none (word fid e))
last_word-append fid (d ∷ log) e =
    ap (or_last (word fid d)) (last_word-append fid log e)
    ∙ or_last_assoc (word fid d) (last_word fid log) (word fid e)

-- An active request stands under its floor, for the client's user, has not ended, and if it is
-- granted, then the last word to the application was that it has the floor.
pub record IsOwned (c : UdpClient) (fid : ℕ) (req : ActiveFloorRequest) : Type 0 where
  pub same_floor : req.floor_id ≡ fid
  pub own : req.beneficiary_id ≡ c.config.user_id
  pub goes_on : is_final req.status ≡ false
  pub was_told : req.status ≡ RequestStatus.granted → last_word fid c.log ≡ some true

abbrev pub OwnedAt : UdpClient → ℕ → Type 0
OwnedAt c fid =
    (req : ActiveFloorRequest) → lookup fid c.active_requests ≡ some req → IsOwned c fid req

abbrev pub Owned : UdpClient → Type 0
Owned c = (fid : ℕ) → OwnedAt c fid

pub emit-OwnedAt :
    (e : Event) (fid : ℕ) (c : UdpClient)
    → word fid e ≡ none
    → OwnedAt c fid
    → OwnedAt (emit e c) fid
emit-OwnedAt e fid c w h req at =
    let r = h req at in
    let same : last_word fid (emit e c).log ≡ last_word fid c.log =
      last_word-append fid c.log e ∙ ap (or_last (last_word fid c.log)) w in
    record {
      same_floor = r.same_floor;
      own = r.own;
      goes_on = r.goes_on;
      was_told = λ g. same ∙ r.was_told g;
    }

pub IsQuiet-word : {A : ℕ → Type 0} {e : Event} (fid : ℕ) → IsQuiet A e → word fid e ≡ none
IsQuiet-word fid (sends m a) = refl
IsQuiet-word fid (waits w all) = refl
IsQuiet-word fid (observes f b s) = refl
IsQuiet-word fid (reports k i) = refl
