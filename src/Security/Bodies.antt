-- ===== src/Security/Bodies.antt =====
-- Which request bodies reach the application (src/pitblu_core/security.py, `RequestBounds`).
use mathlib.Core.List.{append_assoc}
use pitblu_core.Prelude.{
  List, String, [], arith, false, if◌then◌else◌, leb, length, length-append, nat_eq, true, ℕ, ◌++◌,
  ◌+◌, ◌∷◌, ◌≡◌, ◌≤◌,
}
use pitblu_core.Security.{
  Message, body_part, bounded_call, changes_state, delivered, disconnect, read_body, too_large,
}

-- The messages of a whole body: its parts, the last of which says that no more follows.
abbrev pub parts : List (List ℕ) → List ℕ → List Message
parts [] last = body_part last false ∷ []
parts (c ∷ cs) last = body_part c true ∷ parts cs last

abbrev pub joined : List (List ℕ) → List ℕ → List ℕ
joined [] last = last
joined (c ∷ cs) last = c ++ joined cs last

read_whole :
    (maximum : ℕ) (chunks : List ℕ) (cs : List (List ℕ)) (last : List ℕ) (rest : List Message)
    → read_body maximum chunks (parts cs last ++ rest) ≡ (
        if leb (length chunks + length (joined cs last)) maximum
        then delivered (chunks ++ joined cs last)
        else too_large)
unfolding read_body
read_whole maximum chunks [] last rest = ground arith
read_whole maximum chunks (c ∷ cs) last rest = ground (
  arith,
  read_whole maximum (chunks ++ c) cs last rest,
  length-append chunks c,
  length-append c (joined cs last),
  append_assoc chunks c (joined cs last),
)

-- A request that changes state and whose body comes in any parts, with any messages behind it, is
-- handed on with exactly the bytes of its parts in order if they are at most the maximum, and is
-- answered with 413 otherwise.
pub bounded_call_whole :
    (maximum : ℕ) (method : String) (cs : List (List ℕ)) (last : List ℕ) (rest : List Message)
    → changes_state method ≡ true
    → bounded_call maximum "http" method (parts cs last ++ rest)
      ≡ (if leb (length (joined cs last)) maximum then delivered (joined cs last) else too_large)
unfolding bounded_call
bounded_call_whole maximum method cs last rest h =
    ground (arith, read_whole maximum [] cs last rest)

read_bounded :
    (maximum : ℕ) (chunks : List ℕ) (messages : List Message) (body : List ℕ)
    → read_body maximum chunks messages ≡ delivered body
    → length body ≤ maximum
unfolding read_body
read_bounded maximum chunks [] body h = cc
read_bounded maximum chunks (disconnect ∷ messages) body h = cc
read_bounded maximum chunks (body_part c more ∷ messages) body h =
    ground (arith, read_bounded maximum (chunks ++ c) messages body, length-append chunks c)

-- Whatever messages come, in any order and however many, a body that is handed on after being read
-- has at most the maximum of bytes.
pub bounded_call_bounded :
    (maximum : ℕ) (kind method : String) (messages : List Message) (body : List ℕ)
    → bounded_call maximum kind method messages ≡ delivered body
    → length body ≤ maximum
unfolding bounded_call
bounded_call_bounded maximum kind method messages body h =
    read_bounded maximum [] messages body (ground arith)
