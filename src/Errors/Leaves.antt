-- ===== src/Errors/Leaves.antt =====
-- The errors that a joined error reports, in order.
use mathlib.Core.List.{append-nil}
use pmap.Base.{◌≡◌, refl, Option, none, some, List, [], ◌∷◌, ◌++◌, Bytes}
use pmap.Errors.{Err, plain, wrapped, joined, process, process_nil, Errs, nil, cons, message, join}

-- The texts of the errors that were joined, at any depth of joins.
mutual
  pub leaves_of : Err → List Bytes
  leaves_of (plain text) = message (plain text) ∷ []
  leaves_of (wrapped text e) = message (wrapped text e) ∷ []
  leaves_of (joined es) = leaves_of_all es
  leaves_of (process e) = message (process e) ∷ []
  leaves_of process_nil = message process_nil ∷ []

  pub leaves_of_all : Errs → List Bytes
  leaves_of_all nil = []
  leaves_of_all (cons e es) = leaves_of e ++ leaves_of_all es

unfoldable pub leaves : Option Err → List Bytes
unfolding leaves_of
leaves none = []
leaves (some e) = leaves_of e

pub leaves-none : leaves none ≡ []
unfolding leaves
leaves-none = refl

pub leaves-plain : (text : Bytes) → leaves (some (plain text)) ≡ text ∷ []
unfolding leaves message
leaves-plain text = refl

pub leaves-join : (d e : Option Err) → leaves (join d e) ≡ leaves d ++ leaves e
unfolding leaves join
leaves-join none none = refl
leaves-join none (some e) = append-nil (leaves_of e)
leaves-join (some d) none = refl
leaves-join (some d) (some e) = rw append-nil

-- A join is nil exactly if both errors are.
pub join-eq-none : (d e : Option Err) → join d e ≡ none → (d ≡ none) × (e ≡ none)
unfolding join
join-eq-none none none h = (refl, refl)
join-eq-none none (some e) h = absurd (cc)
join-eq-none (some d) none h = absurd (cc)
join-eq-none (some d) (some e) h = absurd (cc)
