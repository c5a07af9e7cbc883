-- ===== src/Calls/Keys.antt =====
-- src/calls.rs: distinct keys, and what the single operations do to one pair.
use arcade_launcher_server.Base.{
  ℕ, ◌≡◌, refl, Bool, false, ◌&&◌, none, some, [], ◌∷◌, ◌==◌, if◌then◌else◌, arith,
}
use arcade_launcher_server.Calls.{
  Ringing, Rings, lookup, remove, start, answered, ended, ended_either_way, is_there,
}

-- No pair rings twice.
abbrev pub IsKeyed : Rings → Type 0
IsKeyed [] = Unit {0}
IsKeyed (e ∷ live) = (lookup e.0 e.1 live ≡ none) × IsKeyed live

pub remove-found : (a b : ℕ) (live : Rings) → (remove a b live).0 ≡ lookup a b live
unfolding remove lookup
remove-found a b [] = refl
remove-found a b (e ∷ live) = ground (arith, remove-found a b live)

pub lookup-remove :
    (a b c d : ℕ) (live : Rings)
    → IsKeyed live
    → lookup c d (remove a b live).1 ≡ (if c == a && d == b then none else lookup c d live)
unfolding remove lookup
lookup-remove a b c d [] k = ground arith
lookup-remove a b c d (e ∷ live) (new, k) = ground (arith, lookup-remove a b c d live k, new)

pub remove-IsKeyed : (a b : ℕ) (live : Rings) → IsKeyed live → IsKeyed (remove a b live).1
unfolding remove lookup
remove-IsKeyed a b [] k = tt
remove-IsKeyed a b (e ∷ live) (new, k) =
    ground (arith, remove-IsKeyed a b live k, lookup-remove a b e.0 e.1 live k)

pub start-IsKeyed :
    (a b : ℕ) (video : Bool) (now : ℕ) (live : Rings)
    → IsKeyed live
    → IsKeyed (start a b video now live)
unfolding start
start-IsKeyed a b video now live k = ground arith

-- An invite to a pair that rings already changes nothing.
pub start_again :
    (a b : ℕ) (video : Bool) (now : ℕ) (live : Rings) (r : Ringing)
    → lookup a b live ≡ some r
    → start a b video now live ≡ live
unfolding start
start_again a b video now live r h = rw (h, start)

-- In a table where no pair rings twice: answering reports whether the pair rang and stops the ring, so ending the same pair afterwards
-- reports nothing missed.
pub answered_not_missed :
    (a b : ℕ) (live : Rings)
    → IsKeyed live
    → ((answered a b live).0 ≡ is_there (lookup a b live))
      × ((ended a b (answered a b live).1).0 ≡ none)
      × (lookup a b (answered a b live).1 ≡ none)
unfolding answered ended
answered_not_missed a b live k = ground (
  arith,
  remove-found a b live,
  lookup-remove a b a b live k,
  remove-found a b (remove a b live).1,
)

-- In a table where no pair rings twice, calls in opposite directions are two rings: ending the call between two distinct accounts
-- resolves the ring of the account that is named first, when there is one, and leaves the other as it
-- was.
pub ended_either_way_one :
    (a b : ℕ) (live : Rings) (r : Ringing)
    → IsKeyed live
    → (a == b) ≡ false
    → lookup a b live ≡ some r
    → ((ended_either_way a b live).0 ≡ some (a, b, r))
      × (lookup a b (ended_either_way a b live).1 ≡ none)
      × (lookup b a (ended_either_way a b live).1 ≡ lookup b a live)
unfolding ended_either_way
ended_either_way_one a b live r k differ there =
    ground
      (arith, remove-found a b live, lookup-remove a b a b live k, lookup-remove a b b a live k)
