-- ===== src/AutoProfile/Signposts.antt =====
-- python/ttl/_src/auto_profile.py: the name of a signpost gives its operation back.
use tt_lang.Prelude.{
  ℕ, ◌≡◌, refl, ap, ap₂, ◌∙◌, [], ◌∷◌, ◌++◌, none, some, Bool, true, false, ◌&&◌, ◌||◌, ◌==◌, arith,
}
use tt_lang.AutoProfile.{
  Text, is_digit, after_digits, or_else, search_mark, starts_with, implicit_prefix, split_op,
  parse_signpost_name,
}

-- Whether a text has "_L".
abbrev pub has_mark : Text → Bool
has_mark [] = false
has_mark (a ∷ []) = false
has_mark (a ∷ c ∷ cs) = ((a == b'_') && (c == b'L')) || has_mark (c ∷ cs)

abbrev pub all_digits : Text → Bool
all_digits [] = true
all_digits (c ∷ cs) = is_digit c && all_digits cs

-- "_L"
abbrev pub mark : Text
mark = b'_' ∷ b'L' ∷ []

and-false : (a : Bool) → a && false ≡ false
and-false true = refl
and-false false = refl

or-false : (a b : Bool) → a || b ≡ false → (a ≡ false) × (b ≡ false)
or-false true b h = absurd (cc)
or-false false b h = (refl, h)

and-true→ : (a b : Bool) → a && b ≡ true → (a ≡ true) × (b ≡ true)
and-true→ true b h = (refl, h)
and-true→ false b h = absurd (cc)

after_digits-digits :
    (seen : Bool) (d : ℕ) (ds rest : Text)
    → all_digits (d ∷ ds) ≡ true
    → after_digits seen ((d ∷ ds) ++ rest) ≡ after_digits true rest
after_digits-digits seen d [] rest h = rw ((and-true→ (is_digit d) true h).0) refl
after_digits-digits seen d (e ∷ ds) rest h =
    let (first, others) = and-true→ (is_digit d) (all_digits (e ∷ ds)) h in
    rw first (after_digits-digits true e ds rest others)

search_mark-kernel :
    (kernel rest : Text)
    → has_mark kernel ≡ false
    → search_mark (kernel ++ (mark ++ rest)) ≡ search_mark (mark ++ rest)
unfolding search_mark
search_mark-kernel [] rest h = refl
search_mark-kernel (a ∷ []) rest h = rw (and-false (a == b'_')) refl
search_mark-kernel (a ∷ c ∷ cs) rest h =
    let (first, others) = or-false ((a == b'_') && (c == b'L')) (has_mark (c ∷ cs)) h in
    rw first (search_mark-kernel (c ∷ cs) rest others)

digit-ne-underscore : (d : ℕ) → is_digit d ≡ true → (d == b'_') ≡ false
digit-ne-underscore d h = ground arith

-- Digits alone hold no mark.
search_mark-digits : (ds : Text) → all_digits ds ≡ true → search_mark ds ≡ none
unfolding search_mark
search_mark-digits [] h = refl
search_mark-digits (d ∷ []) h = refl
search_mark-digits (d ∷ e ∷ ds) h =
    let (first, others) = and-true→ (is_digit d) (all_digits (e ∷ ds)) h in
    rw (digit-ne-underscore d first) (search_mark-digits (e ∷ ds) others)

after_digits-none : (seen : Bool) (ds : Text) → all_digits ds ≡ true → after_digits seen ds ≡ none
after_digits-none seen [] h = refl
after_digits-none seen (d ∷ ds) h =
    let (first, others) = and-true→ (is_digit d) (all_digits ds) h in
    rw first (after_digits-none true ds others)

-- For a kernel whose name has no "_L" and a line number of one digit or more: from the name
-- "<kernel>_L<line>" no operation is read; from "<kernel>_L<line>_<op>" the operation, as an explicit one
-- unless it begins with "implicit_"; and from "<kernel>_L<line>_implicit_<op>" the operation, as an
-- implicit one, whatever it begins with.
pub parse_signpost_name-forms :
    (kernel : Text) (d : ℕ) (ds op more : Text)
    → has_mark kernel ≡ false
    → all_digits (d ∷ ds) ≡ true
    → starts_with op implicit_prefix ≡ false
    → (parse_signpost_name (kernel ++ (mark ++ (d ∷ ds))) ≡ (none, false))
      × (parse_signpost_name (kernel ++ (mark ++ ((d ∷ ds) ++ (b'_' ∷ op)))) ≡ (some op, false))
      × (parse_signpost_name (kernel ++ (mark ++ ((d ∷ ds) ++ (b'_' ∷ (implicit_prefix ++ more)))))
          ≡ (some more, true))
unfolding parse_signpost_name search_mark
parse_signpost_name-forms kernel d ds op more h k s =
    let found : (rest : Text)
        → search_mark (kernel ++ (mark ++ ((d ∷ ds) ++ (b'_' ∷ rest)))) ≡ some rest =
      λ rest.
        search_mark-kernel kernel ((d ∷ ds) ++ (b'_' ∷ rest)) h
        ∙ ap (λ o. or_else o (search_mark (b'L' ∷ ((d ∷ ds) ++ (b'_' ∷ rest)))))
            (after_digits-digits false d ds (b'_' ∷ rest) k) in
    (
      ap split_op (
          search_mark-kernel kernel (d ∷ ds) h
          ∙ ap₂ or_else (after_digits-none false (d ∷ ds) k) (search_mark-digits (d ∷ ds) k)),
      ap split_op (found op) ∙ rw s refl,
      ap split_op (found (implicit_prefix ++ more)),
    )
