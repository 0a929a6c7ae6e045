-- ===== src/Repository/Rows/Find.antt =====
-- What a SELECT by key finds after an UPDATE, an INSERT or a DELETE.
use cashflow_backend.Base.{
  ◌≡◌, refl, Bool, true, false, none, some, List, [], ◌∷◌, ◌++◌, arith, find, update_where,
  delete_where, if◌then◌else◌,
}

module _ {ℓ} {A : Type ℓ} where
  pub find_sound : (q : A → Bool) (xs : List A) {x : A} → find q xs ≡ some x → q x ≡ true
  unfolding find
  find_sound q [] e = cc
  find_sound q (y ∷ ys) {x} e = ground (arith, find_sound q ys {x = x})

  pub find-append_some :
      (q : A → Bool) (xs ys : List A) {x : A} → find q xs ≡ some x → find q (xs ++ ys) ≡ some x
  unfolding find
  find-append_some q [] ys e = cc
  find-append_some q (y ∷ xs) ys {x} e = ground (arith, find-append_some q xs ys {x = x})

  pub find-append_none :
      (q : A → Bool) (xs ys : List A) → find q xs ≡ none → find q (xs ++ ys) ≡ find q ys
  unfolding find
  find-append_none q [] ys e = refl
  find-append_none q (y ∷ xs) ys e = ground (arith, find-append_none q xs ys)

  -- An update that keeps what the key reads.
  pub find-update_where :
      (q p : A → Bool) (f : A → A) (xs : List A) {x : A}
      → ((y : A) → q (f y) ≡ q y)
      → find q xs ≡ some x
      → find q (update_where p f xs) ≡ some (if p x then f x else x)
  unfolding find update_where
  find-update_where q p f [] keep e = cc
  find-update_where q p f (y ∷ ys) {x} keep e =
      ground (arith, keep y, find-update_where q p f ys {x = x} keep)

  pub find-update_where-none :
      (q p : A → Bool) (f : A → A) (xs : List A)
      → ((y : A) → q (f y) ≡ q y)
      → find q xs ≡ none
      → find q (update_where p f xs) ≡ none
  unfolding find update_where
  find-update_where-none q p f [] keep e = refl
  find-update_where-none q p f (y ∷ ys) keep e =
      ground (arith, keep y, find-update_where-none q p f ys keep)

  -- A deletion that spares every row with the key.
  pub find-delete_where :
      (q p : A → Bool) (xs : List A)
      → ((y : A) → q y ≡ true → p y ≡ false)
      → find q (delete_where p xs) ≡ find q xs
  unfolding find delete_where
  find-delete_where q p [] spare = refl
  find-delete_where q p (y ∷ ys) spare = ground (arith, spare y, find-delete_where q p ys spare)

  -- A statement that touches no row with the key.
  pub find-append_spare :
      (q : A → Bool) (xs : List A) (y : A) → q y ≡ false → find q (xs ++ y ∷ []) ≡ find q xs
  unfolding find
  find-append_spare q [] y n = ground arith
  find-append_spare q (z ∷ zs) y n = ground (arith, find-append_spare q zs y n)

  pub find-update_spare :
      (q p : A → Bool) (f : A → A) (xs : List A)
      → ((y : A) → q (f y) ≡ q y)
      → ((y : A) → q y ≡ true → p y ≡ false)
      → find q (update_where p f xs) ≡ find q xs
  unfolding find update_where
  find-update_spare q p f [] keep spare = refl
  find-update_spare q p f (z ∷ zs) keep spare =
      ground (arith, keep z, spare z, find-update_spare q p f zs keep spare)
