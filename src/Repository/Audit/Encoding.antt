-- ===== src/Repository/Audit/Encoding.antt =====
-- The record that ComputeHash hashes: fields joined by `|`.
use cashflow_backend.Base.{ℕ, ◌≡◌, refl, ◌≢◌, ap, sym, subst, [], ◌∷◌, ◌++◌, Text}

-- The text has no `|`.
abbrev pub IsBarFree : Text → Type 0
IsBarFree [] = Unit
IsBarFree (c ∷ s) = (c ≢ b'|') × IsBarFree s

not-IsBarFree : (s t : Text) → ¬ IsBarFree (s ++ (b'|' ∷ t))
not-IsBarFree [] t h = h.0 refl
not-IsBarFree (c ∷ s) t h = not-IsBarFree s t h.1

abbrev tail_text : Text → Text
tail_text [] = []
tail_text (c ∷ s) = s

abbrev head_or : ℕ → Text → ℕ
head_or d [] = d
head_or d (c ∷ s) = c

-- The text in front of the first bar, and the rest.
pub first_bar :
    (s t x y : Text)
    → IsBarFree s
    → IsBarFree t
    → s ++ (b'|' ∷ x) ≡ t ++ (b'|' ∷ y)
    → (s ≡ t) × (x ≡ y)
first_bar [] [] x y hs ht e = (refl, ap tail_text e)
first_bar [] (d ∷ t) x y hs ht e = absurd (ht.0 (sym (ap (head_or 0) e)))
first_bar (c ∷ s) [] x y hs ht e = absurd (hs.0 (ap (head_or 0) e))
first_bar (c ∷ s) (d ∷ t) x y hs ht e =
    let (p, q) = first_bar s t x y hs.1 ht.1 (ap tail_text e) in (cc (ap (head_or 0) e, p), q)

-- The text behind the last bar, and what stands in front.
pub last_bar :
    (s t x y : Text)
    → IsBarFree x
    → IsBarFree y
    → s ++ (b'|' ∷ x) ≡ t ++ (b'|' ∷ y)
    → (s ≡ t) × (x ≡ y)
last_bar [] [] x y hx hy e = (refl, ap tail_text e)
last_bar [] (d ∷ t) x y hx hy e = absurd (not-IsBarFree t y (subst IsBarFree (ap tail_text e) hx))
last_bar (c ∷ s) [] x y hx hy e =
    absurd (not-IsBarFree s x (subst IsBarFree (sym (ap tail_text e)) hy))
last_bar (c ∷ s) (d ∷ t) x y hx hy e =
    let (p, q) = last_bar s t x y hx hy (ap tail_text e) in (cc (ap (head_or 0) e, p), q)
