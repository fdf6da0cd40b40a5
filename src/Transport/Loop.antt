-- ===== src/Transport/Loop.antt =====
-- The read loop of transport.go: it ends, it hands over what was written, and what a read deadline
-- inside a message loses.
use bfcp.Base.{
  ℕ, zero, suc, ◌≤◌, ◌<◌, ◌≡◌, refl, sym, ap, ◌∙◌, List, [], ◌∷◌, ◌++◌, map, length, arith,
}
use bfcp.Base.Result.{Result, ok, err}
use bfcp.Message.Decode.{DecodeError, decode}
use bfcp.Message.{Message}
use bfcp.Message.Read.{payload_size}
use bfcp.Transport.{
  Input, octet, timeout, reset, Full, full, timed_out, was_reset, at_end, push, read_full, Round,
  message, again, ends, Event, on_message, on_close, after_header, after_payload, decoded,
  read_round, read_loop, run_connection,
}

abbrev pub octets : List ℕ → List Input
octets bs = map octet bs

-- At most `n` inputs stand behind a read, and behind a round.
abbrev Within : ℕ → Full → Type 0
Within n (full bs rest) = length rest ≤ n
Within n (timed_out rest) = length rest ≤ n
Within n was_reset = Unit {0}
Within n at_end = Unit {0}

abbrev RoundWithin : ℕ → Round → Type 0
RoundWithin n (message m rest) = length rest ≤ n
RoundWithin n (again rest) = length rest ≤ n
RoundWithin n (ends errors) = Unit {0}

push-Within : (n b : ℕ) (f : Full) → Within n f → Within (suc n) (push b f)
push-Within n b (full bs rest) h = omega arith
push-Within n b (timed_out rest) h = omega arith
push-Within n b was_reset h = tt
push-Within n b at_end h = tt

push_same-Within : (n b : ℕ) (f : Full) → Within n f → Within n (push b f)
push_same-Within n b (full bs rest) h = h
push_same-Within n b (timed_out rest) h = h
push_same-Within n b was_reset h = tt
push_same-Within n b at_end h = tt

read_full-Within : (n : ℕ) (is : List Input) → Within (length is) (read_full n is)
unfolding read_full
read_full-Within zero is = omega arith
read_full-Within (suc n) [] = tt
read_full-Within (suc n) (timeout ∷ is) = omega arith
read_full-Within (suc n) (reset ∷ is) = tt
read_full-Within (suc n) (octet b ∷ is) =
    push-Within (length is) b (read_full n is) (read_full-Within n is)

-- A read of some octets takes an input.
taken_input-Within :
    (n : ℕ) (i : Input) (is : List Input) → Within (length is) (read_full (suc n) (i ∷ is))
unfolding read_full
taken_input-Within n (octet b) is =
    push_same-Within (length is) b (read_full n is) (read_full-Within n is)
taken_input-Within n timeout is = omega arith
taken_input-Within n reset is = tt

decoded-Within :
    (n : ℕ) (rest : List Input) (r : Result DecodeError Message)
    → length rest ≤ n
    → RoundWithin n (decoded rest r)
decoded-Within n rest (ok m) h = h
decoded-Within n rest (err e) h = tt

payload-Within :
    (n : ℕ) (header : List ℕ) (f : Full) → Within n f → RoundWithin n (after_payload header f)
payload-Within n header (full bs rest) h = decoded-Within n rest (decode (header ++ bs)) h
payload-Within n header (timed_out rest) h = h
payload-Within n header was_reset h = tt
payload-Within n header at_end h = tt

Within-le : (m n : ℕ) (f : Full) → m ≤ n → Within m f → Within n f
Within-le m n (full bs rest) le h = omega arith
Within-le m n (timed_out rest) le h = omega arith
Within-le m n was_reset le h = tt
Within-le m n at_end le h = tt

header-Within : (n : ℕ) (f : Full) → Within n f → RoundWithin n (after_header f)
header-Within n (full header rest) h =
    let f = read_full (payload_size header) rest in
    payload-Within n header f
      (Within-le (length rest) n f h (read_full-Within (payload_size header) rest))
header-Within n (timed_out rest) h = h
header-Within n was_reset h = tt
header-Within n at_end h = tt

read_round-Within : (i : Input) (is : List Input) → RoundWithin (length is) (read_round (i ∷ is))
unfolding read_round
read_round-Within i is =
    header-Within (length is) (read_full 12 (i ∷ is)) (taken_input-Within 11 i is)

read_round-nil : read_round [] ≡ ends []
unfolding read_round read_full
read_round-nil = refl

-- Octets in one piece are read as `Message.Read.read_full` reads them.
pub read_full-octets :
    (bs : List ℕ) (rest : List Input) → read_full (length bs) (octets bs ++ rest) ≡ full bs rest
unfolding read_full
read_full-octets [] rest = refl
read_full-octets (b ∷ bs) rest = ap (push b) (read_full-octets bs rest)

pub read_full-timeout :
    (n : ℕ) (bs : List ℕ) (rest : List Input)
    → length bs < n
    → read_full n (octets bs ++ (timeout ∷ rest)) ≡ timed_out rest
unfolding read_full
read_full-timeout zero bs rest h = absurd (omega arith)
read_full-timeout (suc n) [] rest h = refl
read_full-timeout (suc n) (b ∷ bs) rest h = ap (push b) (read_full-timeout n bs rest (omega arith))

-- What the loop makes of a round.
abbrev pub after_round : (next : List Input → List Event) → Round → List Event
after_round next (message m rest) = on_message m ∷ next rest
after_round next (again rest) = next rest
after_round next (ends errors) = errors ++ (on_close ∷ [])

after_round-same :
    (n : ℕ) (f g : List Input → List Event) (r : Round)
    → RoundWithin n r
    → ((is : List Input) → length is ≤ n → f is ≡ g is)
    → after_round f r ≡ after_round g r
after_round-same n f g (message m rest) h same = ap (λ l. on_message m ∷ l) (same rest h)
after_round-same n f g (again rest) h same = same rest h
after_round-same n f g (ends errors) h same = refl

read_loop-suc :
    (fuel : ℕ) (is : List Input)
    → read_loop (suc fuel) is ≡ after_round (read_loop fuel) (read_round is)
unfolding read_loop
read_loop-suc fuel is = elim (read_round is) [
  | message m rest ↦ refl
  | again rest ↦ refl
  | ends errors ↦ refl
]

-- More fuel than inputs is enough.
read_loop-enough :
    (a b : ℕ) (is : List Input) → length is < a → length is < b → read_loop a is ≡ read_loop b is
read_loop-enough zero b is h k = absurd (omega arith)
read_loop-enough (suc a) zero is h k = absurd (omega arith)
read_loop-enough (suc a) (suc b) [] h k =
    rw (read_loop-suc a [], read_loop-suc b [], read_round-nil) refl
read_loop-enough (suc a) (suc b) (i ∷ is) h k =
    read_loop-suc a (i ∷ is)
    ∙ after_round-same (length is) (read_loop a) (read_loop b) (read_round (i ∷ is))
        (read_round-Within i is) (λ js le. read_loop-enough a b js (omega arith) (omega arith))
    ∙ sym (read_loop-suc b (i ∷ is))

pub run-round : (is : List Input) → run_connection is ≡ after_round run_connection (read_round is)
unfolding run_connection
run-round [] = rw (read_loop-suc 0 [], read_round-nil) refl
run-round (i ∷ is) =
    read_loop-suc (suc (length is)) (i ∷ is)
    ∙ after_round-same (length is) (read_loop (suc (length is))) run_connection
        (read_round (i ∷ is)) (read_round-Within i is)
        (λ js le.
          unfold run_connection in
          read_loop-enough (suc (length is)) (suc (length js)) js (omega arith) (omega arith))
