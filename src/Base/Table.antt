-- ===== src/Base/Table.antt =====
-- A database table as the list of its rows, with the statements that the server issues.
use Prim.Native.Nat.{ℕ, suc}
use mathlib.Core.Bool.{Bool}
use mathlib.Core.Option.{Option, none, some}
use mathlib.Core.List.{List, [], ◌∷◌}
use mathlib.Core.Path.{◌≡◌}
use mathlib.Core.Bool.{true, false}
use mathlib.Core.Logic.{inl, inr}
use native.Mathlib.Omega.{arith}
use arcade_launcher_server.Base.Tests.{if◌then◌else◌, Bool-cases}
use arcade_launcher_server.Base.Lists.{All}

module _ {ℓ} {A : Type ℓ} where
  -- SELECT … WHERE p LIMIT 1
  unfoldable pub select_first : (A → Bool) → List A → Option A
  select_first p [] = none
  select_first p (r ∷ rs) = if p r then some r else select_first p rs

  -- SELECT COUNT(*) … WHERE p
  unfoldable pub count_where : (A → Bool) → List A → ℕ
  count_where p [] = 0
  count_where p (r ∷ rs) = if p r then suc (count_where p rs) else count_where p rs

  -- UPDATE … SET f WHERE p
  unfoldable pub update_where : (A → Bool) → (A → A) → List A → List A
  update_where p f [] = []
  update_where p f (r ∷ rs) = (if p r then f r else r) ∷ update_where p f rs

  -- DELETE … WHERE p
  unfoldable pub delete_where : (A → Bool) → List A → List A
  delete_where p [] = []
  delete_where p (r ∷ rs) = if p r then delete_where p rs else r ∷ delete_where p rs

module _ {ℓ κ} {A : Type ℓ} {P Q : A → Type κ} where
  pub All-map : (rs : List A) → ((r : A) → P r → Q r) → All P rs → All Q rs
  All-map [] h k = tt
  All-map (r ∷ rs) h (k, ks) = (h r k, All-map rs h ks)

  pub All-delete_where :
      (p : A → Bool) (rs : List A)
      → ((r : A) → P r → p r ≡ false → Q r)
      → All P rs
      → All Q (delete_where p rs)
  unfolding delete_where
  All-delete_where p [] h k = tt
  All-delete_where p (r ∷ rs) h (k, ks) = elim (Bool-cases (p r)) [
    | inl hit ↦ rw hit (All-delete_where p rs h ks)
    | inr miss ↦ rw miss (h r k miss, All-delete_where p rs h ks)
  ]

  pub All-update_where :
      (p : A → Bool) (f : A → A) (rs : List A)
      → ((r : A) → P r → p r ≡ true → Q (f r))
      → ((r : A) → P r → p r ≡ false → Q r)
      → All P rs
      → All Q (update_where p f rs)
  unfolding update_where
  All-update_where p f [] hit miss k = tt
  All-update_where p f (r ∷ rs) hit miss (k, ks) = elim (Bool-cases (p r)) [
    | inl e ↦ rw e (hit r k e, All-update_where p f rs hit miss ks)
    | inr e ↦ rw e (miss r k e, All-update_where p f rs hit miss ks)
  ]

module _ {ℓ κ} {A : Type ℓ} (P : A → Type κ) where
  pub All-select_first :
      (p : A → Bool) (rs : List A) (r : A)
      → All P rs
      → select_first p rs ≡ some r
      → P r × (p r ≡ true)
  unfolding select_first
  All-select_first p [] r k e = absurd (cc)
  All-select_first p (x ∷ rs) r (k, ks) e = elim (Bool-cases (p x)) [
    | inl hit ↦
        let same : x ≡ r = ground arith in
        rw same at (let both : P x × (p x ≡ true) = (k, hit) in both)
    | inr miss ↦ All-select_first p rs r ks (rw miss at e)
  ]
