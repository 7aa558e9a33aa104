-- ===== src/Publish/Markers/Laws.antt =====
-- Markers that are written are read back (reviewer/publish/publisher.py).
use code_reviewer.Prelude.{
  ℕ, zero, suc, ◌≤◌, ◌≡◌, refl, ap, ◌∙◌, inl, inr, Bool, true, not, List, [], ◌∷◌, ◌++◌, map, arith,
  ◌==◌, Bool-cases, length, any, all, take, drop, &&_true,
}
use code_reviewer.Prelude.Text.{Text, text_eq, text_eq_refl}
use mathlib.Core.List.{append_assoc}
use code_reviewer.Publish.Markers.{
  opening, fingerprints_in, closing, literal, hex, accepts, is_hex, fingerprint_pattern, find_all,
  Class, matches, replicate, marker,
}

-- 32 hexadecimal digits, as `hexdigest()[:32]` gives.
pub record IsFingerprint (fp : Text) : Type 0 where
  pub long : length fp ≡ 32
  pub digits : all is_hex fp ≡ true

matches-literals :
    (s t : Text) (ps : List Class) → matches (map literal s ++ ps) (s ++ t) ≡ matches ps t
unfolding matches
matches-literals [] t ps = refl
matches-literals (c ∷ s) t ps = ground (arith, matches-literals s t ps)

matches-replicate :
    (n : ℕ) (fp t : Text) (ps : List Class)
    → length fp ≡ n
    → all is_hex fp ≡ true
    → matches (replicate n hex ++ ps) (fp ++ t) ≡ matches ps t
unfolding matches replicate
matches-replicate zero [] t ps len h = refl
matches-replicate zero (c ∷ fp) t ps len h = absurd (omega (arith, len))
matches-replicate (suc n) [] t ps len h = absurd (omega (arith, len))
matches-replicate (suc n) (c ∷ fp) t ps len h = ground (arith, h, matches-replicate n fp t ps)

marker-matches :
    (fp post : Text) → IsFingerprint fp → matches fingerprint_pattern (marker fp ++ post) ≡ true
unfolding fingerprint_pattern matches
marker-matches fp post h =
    let ps = replicate 32 hex ++ map literal closing in
    matches-literals opening ((fp ++ closing) ++ post) ps
    ∙ ap (matches ps) (append_assoc fp closing post)
    ∙ matches-replicate 32 fp (closing ++ post) (map literal closing) h.long h.digits

-- The classes of the pattern behind its first character accept no "<".
abbrev rejects_lt : Class → Bool
rejects_lt p = not (accepts p b'<')

matches-no_lt :
    (ps : List Class) (pre post : Text)
    → all rejects_lt ps ≡ true
    → matches ps (pre ++ (b'<' ∷ post)) ≡ true
    → length ps ≤ length pre
unfolding matches
matches-no_lt [] pre post h m = omega arith
matches-no_lt (p ∷ ps) [] post h m = ground (arith, h, m)
matches-no_lt (p ∷ ps) (c ∷ pre) post h m = ground (arith, h, m, matches-no_lt ps pre post)

-- A match that starts before a marker ends before it.
pattern_apart :
    (c : ℕ) (pre post : Text)
    → matches fingerprint_pattern (c ∷ (pre ++ (b'<' ∷ post))) ≡ true
    → 62 ≤ length pre
unfolding fingerprint_pattern matches replicate
pattern_apart c pre post m =
    let ps = map literal (drop 1 opening) ++ (replicate 32 hex ++ map literal closing) in
    matches-no_lt ps pre post refl (&&_true (b'<' == c) (matches ps (pre ++ (b'<' ∷ post))) m).1

take-append : (s t : Text) (n : ℕ) → length s ≡ n → take n (s ++ t) ≡ s
take-append [] t zero h = refl
take-append [] t (suc n) h = absurd (omega (arith, h))
take-append (c ∷ s) t zero h = absurd (omega (arith, h))
take-append (c ∷ s) t (suc n) h = ap (λ u. c ∷ u) (take-append s t n (omega (arith, h)))

-- A skip that ends at or before a marker finds it.
find_all-marker :
    (skip : ℕ) (pre fp post : Text)
    → IsFingerprint fp
    → skip ≤ length pre
    → any (text_eq fp) (find_all skip (pre ++ (marker fp ++ post))) ≡ true
unfolding find_all
find_all-marker zero [] fp post h le =
    let same : take 32 ((fp ++ closing) ++ post) ≡ fp =
      ap (take 32) (append_assoc fp closing post) ∙ take-append fp (closing ++ post) 32 h.long in
    rw (marker-matches fp post h, same, text_eq_refl fp) refl
find_all-marker (suc skip) [] fp post h le = absurd (omega (arith, le))
find_all-marker (suc skip) (c ∷ pre) fp post h le =
    find_all-marker skip pre fp post h (omega (arith, le))
find_all-marker zero (c ∷ pre) fp post h le =
    elim (Bool-cases (matches fingerprint_pattern (c ∷ (pre ++ (marker fp ++ post))))) [
      | inl e ↦
          let apart = pattern_apart c pre (drop 1 (marker fp ++ post)) e in
          rw e (ground (arith, find_all-marker 62 pre fp post h apart))
      | inr e ↦ rw e (find_all-marker zero pre fp post h (omega arith))
    ]

-- The fingerprint of a marker is found in every comment that contains the marker, whatever text
-- stands before and after it.
pub fingerprints_in-marker :
    (pre fp post : Text)
    → IsFingerprint fp
    → any (text_eq fp) (fingerprints_in (pre ++ (marker fp ++ post))) ≡ true
fingerprints_in-marker pre fp post h = find_all-marker 0 pre fp post h (omega arith)
