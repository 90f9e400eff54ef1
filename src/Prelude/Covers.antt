-- ===== src/Prelude/Covers.antt =====
-- A list that holds all the items of another, in order, and no others: items may stand there again.
use mathlib.Core.Path.{◌≡◌}
use mathlib.Core.Bool.{Bool, true}
use mathlib.Core.List.{List, ◌++◌, Sublist, sublist-append_left}
use mathlib.Core.List.Sublist as Sublist
use ai_home_assistant.Prelude.Lists.{All, All-append, All-append_left, All-append_right}

module _ {ℓ} {A : Type ℓ} where
  pub record Covers (xs ys : List A) : Type ℓ where
    pub kept : Sublist xs ys
    pub only : (p : A → Bool) → All (λ x. p x ≡ true) xs → All (λ x. p x ≡ true) ys

  pub Covers-refl : (xs : List A) → Covers xs xs
  Covers-refl xs = record { kept = Sublist.refl xs; only = λ p h. h }

  pub Covers-trans : {xs ys zs : List A} → Covers xs ys → Covers ys zs → Covers xs zs
  Covers-trans h k = record {
    kept = Sublist.trans h.kept k.kept;
    only = λ p all. k.only p (h.only p all);
  }

  pub Covers-append : {xs ys : List A} (zs : List A) → Covers xs ys → Covers (xs ++ zs) (ys ++ zs)
  Covers-append {xs} {ys} zs h = record {
    kept = Sublist.append h.kept (Sublist.refl zs);
    only = λ p all.
        All-append _ ys zs (h.only p (All-append_left _ xs zs all)) (All-append_right _ xs zs all);
  }

  -- The end of a list, once more.
  pub Covers-again : (xs ys : List A) → Covers (xs ++ ys) ((xs ++ ys) ++ ys)
  Covers-again xs ys = record {
    kept = sublist-append_left (xs ++ ys) ys;
    only = λ p all. All-append _ (xs ++ ys) ys all (All-append_right _ xs ys all);
  }
