-- ===== src/Base/Perms.antt =====
-- What holds of the members of a list holds of them in any order.
use mathlib.Core.Logic.Or
use mathlib.Core.List.{Mem, Perm, Nodup, Pairwise, mem-cons, not-mem-nil}
use mathlib.Core.List.Perm
use mathlib.Core.List.{List, [], ◌∷◌}
use mathlib.Core.Path.{refl, sym, subst}
use mathlib.Core.HLevel.{¬_prop}
use mop_backend_api.Base.Lists.{All, Distinct}

module _ {A : Type 0} where
  pub All_of_mem : {P : A → Type 0} (l : List A) → ((v : A) → Mem v l → P v) → All P l
  All_of_mem [] h = tt
  All_of_mem (v ∷ l) h =
      (h v (mem-cons.1 (Or.inl refl)), All_of_mem l (λ w m. h w (mem-cons.1 (Or.inr m))))

  pub mem_All :
      {P : A → Type 0} (prop : (v : A) → IsProp (P v)) (v : A) (l : List A)
      → All P l
      → Mem v l
      → P v
  mem_All prop v [] h m = absurd (not-mem-nil m)
  mem_All {P} prop v (w ∷ l) h m =
      Or.elim (prop v) (mem-cons.0 m) (λ e. subst P (sym e) h.0) (mem_All prop v l h.1)

  pub All-Perm :
      {P : A → Type 0} (prop : (v : A) → IsProp (P v)) (l r : List A) → Perm l r → All P r → All P l
  All-Perm prop l r p h = All_of_mem l (λ v m. mem_All prop v r h (Perm.subset p v m))

  pub Distinct-Nodup : (l : List A) → Distinct l → Nodup l
  Distinct-Nodup [] d = Pairwise.nil
  Distinct-Nodup (x ∷ l) d =
      Pairwise.cons (λ y m e. mem_All (λ v. ¬_prop) y l d.0 m (sym e)) (Distinct-Nodup l d.1)

  Nodup-Distinct : (l : List A) → Nodup l → Distinct l
  Nodup-Distinct [] n = tt
  Nodup-Distinct (x ∷ l) (Pairwise.cons h n) =
      (All_of_mem l (λ y m e. h y m (sym e)), Nodup-Distinct l n)

  pub Distinct-Perm : (l r : List A) → Perm l r → Distinct r → Distinct l
  Distinct-Perm l r p d = Nodup-Distinct l (Perm.nodup (Perm.symm p) (Distinct-Nodup r d))
