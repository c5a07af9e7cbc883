-- ===== src/Calls/Tests.antt =====
-- The theorems on rings at a concrete table.
use arcade_launcher_server.Base.{ℕ, ◌≡◌, refl, true, false, some, [], ◌∷◌}
use arcade_launcher_server.Calls.{Ringing, Rings, start, lookup}
use arcade_launcher_server.Calls.Keys.{IsKeyed, start_again}

abbrev ring : ℕ → Ringing
ring t = record { video = false; started_at = t }

abbrev live : Rings
live = (1, 2, ring 100) ∷ (2, 1, ring 110) ∷ (3, 1, ring 130) ∷ []

live-IsKeyed : IsKeyed live
unfolding lookup
live-IsKeyed = (refl, (refl, (refl, tt)))

first : lookup 1 2 live ≡ some (ring 100)
unfolding lookup
first = refl

start_again_example : start 1 2 true 150 live ≡ live
start_again_example = start_again 1 2 true 150 live (ring 100) first
