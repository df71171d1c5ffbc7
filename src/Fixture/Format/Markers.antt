-- ===== src/Fixture/Format/Markers.antt =====
-- What the markers of fixture/format.go decide.
use stateless_executor.Prelude.{
  ◌≡◌, ◌↔◌, refl, ap, ap₂, ◌∙◌, Bool, true, false, ◌||◌, [], ◌∷◌, ◌++◌, take, arith, ==_refl,
  ==_iff, ◌==◌, Bool-cases, inl, inr, if◌then◌else◌,
}
use stateless_executor.Prelude.Errors.{ok}
use stateless_executor.Prelude.Text.{Text, codes, contains, has_prefix}
use stateless_executor.Prelude.Endian.{Bytes}
use stateless_executor.Fixture.Format.{
  Format, sniff_limit, corpus_marker, first_match, sniff_format,
}

-- A text stands somewhere in another.
abbrev pub StandsIn : Text → Text → Type 0
StandsIn p s = (front back : Text) × (s ≡ front ++ (p ++ back))

has_prefix→eq : (s p : Text) → has_prefix s p ≡ true → (back : Text) × (s ≡ p ++ back)
has_prefix→eq s [] h = (s, refl)
has_prefix→eq [] (d ∷ p) h = cc
has_prefix→eq (c ∷ s) (d ∷ p) h = elim (Bool-cases (c == d)) [
  | inl e ↦
      let (back, rest) = has_prefix→eq s p (rw e at h) in (back, ap₂ ◌∷◌ ((==_iff c d).0 e) rest)
  | inr ne ↦ cc (rw ne at h)
]

has_prefix-append : (p back : Text) → has_prefix (p ++ back) p ≡ true
has_prefix-append [] back = refl
has_prefix-append (d ∷ p) back = rw (==_refl d) (has_prefix-append p back)

contains→StandsIn : (s p : Text) → contains s p ≡ true → StandsIn p s
unfolding contains
contains→StandsIn [] p h = let (back, e) = has_prefix→eq [] p h in ([], back, e)
contains→StandsIn (c ∷ s) p h = elim (Bool-cases (has_prefix (c ∷ s) p)) [
  | inl here ↦ let (back, e) = has_prefix→eq (c ∷ s) p here in ([], back, e)
  | inr later ↦
      let (front, back, e) = contains→StandsIn s p (rw later at h) in
      (c ∷ front, back, ap (λ (t : Text). c ∷ t) e)
]

contains-has_prefix : (s p : Text) → has_prefix s p ≡ true → contains s p ≡ true
unfolding contains
contains-has_prefix [] p h = h
contains-has_prefix (c ∷ s) p h = rw h refl

||_true : (b : Bool) → (b || true) ≡ true
||_true true = refl
||_true false = refl

contains-append : (front p back : Text) → contains (front ++ (p ++ back)) p ≡ true
unfolding contains
contains-append [] p back = contains-has_prefix (p ++ back) p (has_prefix-append p back)
contains-append (c ∷ front) p back =
    rw (contains-append front p back) (||_true (has_prefix (c ∷ (front ++ (p ++ back))) p))

-- Only the first marker leads to the corpus format.
corpus_only :
    (b1 b2 b3 b4 b5 : Bool)
    → ok (
        if b1
        then Format.corpus
        else if b2
        then Format.zkevm
        else if b3
        then Format.zkevm
        else if b4
        then Format.zkevm
        else if b5
        then Format.zkevm
        else Format.unknown)
      ≡ ok Format.corpus
    → b1 ≡ true
corpus_only b1 b2 b3 b4 b5 h = ground arith

-- A file is taken for a corpus fixture exactly if the corpus marker stands in its first 8 KiB.
pub sniff_format_corpus_iff :
    (bytes : Bytes)
    → (sniff_format (ok bytes) ≡ ok Format.corpus) ↔ StandsIn corpus_marker (take sniff_limit bytes)
unfolding sniff_format first_match
sniff_format_corpus_iff bytes =
    let head = take sniff_limit bytes in
    (
      λ h. contains→StandsIn head corpus_marker (
          corpus_only (contains head corpus_marker) (contains head (codes "\"genesisBlockHeader\""))
            (contains head (codes "\"engineNewPayloads\""))
            (contains head (codes "\"statelessInputBytes\"")) (contains head (codes "\"blocks\""))
            h),
      λ (front, back, e).
          let found : contains head corpus_marker ≡ true =
            ap (λ (t : Text). contains t corpus_marker) e
            ∙ contains-append front corpus_marker back in
          rw found refl,
    )
