-- ===== src/Shell/Expansion.antt =====
-- src/apps/shell/shell.c: the expansion of a line that starts with an alias that was added.
use project_orange_tea.Base.{
  ℕ, zero, suc, ◌+◌, ◌-◌, ◌≤◌, ◌<◌, ◌≡◌, refl, ap, ◌∙◌, Bool, true, false, not, Option, none, some,
  List, [], ◌∷◌, ◌++◌, ltb, leb, ◌==◌, if-true, if-false, elim-some, take, drop, length, take_all,
  drop-append, take_while-append, drop_while-append, all, stops, arith,
}
use project_orange_tea.Shell.Words.{
  copy_string, is_space, not_space, skip_spaces, taken, read_token,
}
use project_orange_tea.Shell.Alias.{
  max_aliases, alias_text, add_alias, alias_value, lookup_alias, with_arguments, expand_token,
  expand_alias,
}

abbrev pub not_equals : ℕ → Bool
not_equals c = not (c == b'=')

-- a name and a value that fit in the array of an alias, and arguments that fit behind the value
pub record IsAlias (name value arguments : List ℕ) : Type 0 where
  pub named : 0 < length name
  pub spaceless : all not_space name ≡ true
  pub plain : all not_equals name ≡ true
  pub alias_fits : length name + length value ≤ 126
  pub line_fits : length value + length arguments < 127
  pub argued : 0 < length arguments
  pub trimmed : stops is_space arguments ≡ true

alias_value-alias :
    (rounds : ℕ) (name value : List ℕ)
    → all not_equals name ≡ true
    → length name ≤ rounds
    → alias_value rounds (name ++ (b'=' ∷ value)) name ≡ some value
unfolding alias_value
alias_value-alias rounds [] value plain h = refl
alias_value-alias zero (n ∷ name) value plain h = absurd (omega (arith, h))
alias_value-alias (suc rounds) (n ∷ name) value plain h =
    ground (arith, alias_value-alias rounds name value)

lookup_alias-append :
    (aliases : List (List ℕ)) (alias name value : List ℕ)
    → lookup_alias aliases name 128 ≡ none
    → alias_value 127 alias name ≡ some value
    → lookup_alias (aliases ++ (alias ∷ [])) name 128 ≡ some (copy_string value 128)
unfolding lookup_alias
lookup_alias-append [] alias name value free hit =
    elim-some none (λ v. some (copy_string v 128)) hit
lookup_alias-append (first ∷ aliases) alias name value free hit =
    by_first (alias_value 127 first name) (λ f. lookup_alias-append aliases alias name value f hit)
      free
  where
    answer : Option (List ℕ) → Option (List ℕ) → Option (List ℕ)
    answer rest o = elim o [ none ↦ rest | some v ↦ some (copy_string v 128) ]

    old : Option (List ℕ)
    old = lookup_alias aliases name 128

    new : Option (List ℕ)
    new = lookup_alias (aliases ++ (alias ∷ [])) name 128

    by_first :
        (o : Option (List ℕ))
        → (old ≡ none → new ≡ some (copy_string value 128))
        → answer old o ≡ none
        → answer new o ≡ some (copy_string value 128)
    by_first none go f = go f
    by_first (some v) go f = cc

expand_token-named :
    (aliases : List (List ℕ)) (name cursor : List ℕ)
    → 0 < length name
    → expand_token aliases (name, cursor) 128 ≡ elim (lookup_alias aliases name 128) [
      | none ↦ none
      | some v ↦ some (with_arguments (copy_string v 128) (skip_spaces cursor) 128)
    ]
expand_token-named aliases [] cursor h = absurd (omega (arith, h))
expand_token-named aliases (c ∷ name) cursor h = refl

with_arguments_fit :
    (value arguments : List ℕ)
    → 0 < length arguments
    → length value + length arguments < 127
    → with_arguments value arguments 128 ≡ value ++ (b' ' ∷ arguments)
with_arguments_fit value [] h fits = absurd (omega (arith, h))
with_arguments_fit value (c ∷ arguments) h fits =
    let room : ltb (length value) 127 ≡ true = ground arith in
    if-true (value ++ (b' ' ∷ copy_string (c ∷ arguments) (128 - (length value + 1)))) value room
    ∙ ap (λ l. value ++ (b' ' ∷ l))
        (take_all (128 - (length value + 1) - 1) (c ∷ arguments) (omega (arith, fits)))

module _ (name value arguments : List ℕ) (a : IsAlias name value arguments) where
  alias_text-fits : alias_text name value ≡ name ++ (b'=' ∷ value)
  alias_text-fits =
      let whole : take 126 name ≡ name = take_all 126 name (omega (arith, a.alias_fits)) in
      let rest : take (126 - length name) value ≡ value =
        take_all (126 - length name) value (omega (arith, a.alias_fits)) in
      ap (λ n. n ++ (b'=' ∷ take (126 - length n) value)) whole ∙ ap (λ v. name ++ (b'=' ∷ v)) rest

  -- the command line
  abbrev pub line : List ℕ
  line = name ++ (b' ' ∷ arguments)

  token : read_token line 128 ≡ (name, b' ' ∷ arguments)
  unfolding read_token
  token =
      ap (taken not_space 128)
        (drop_while-append is_space [] line refl (starts name a.named a.spaceless))
      ∙ ap (λ w. (take 127 w, drop (length (take 127 w)) line))
          (take_while-append not_space name (b' ' ∷ arguments) a.spaceless refl)
      ∙ ap (λ w. (w, drop (length w) line)) (take_all 127 name (omega (arith, a.alias_fits)))
      ∙ ap (λ l. (name, l)) (drop-append name (b' ' ∷ arguments) (length name) refl)
    where
      starts :
          (n : List ℕ)
          → 0 < length n
          → all not_space n ≡ true
          → stops is_space (n ++ (b' ' ∷ arguments)) ≡ true
      starts [] h g = absurd (omega (arith, h))
      starts (c ∷ n) h g = ground arith

  module _ (aliases : List (List ℕ)) (room : length aliases < max_aliases)
      (free : lookup_alias aliases name 128 ≡ none) where
    found : lookup_alias (add_alias aliases name value) name 128 ≡ some value
    unfolding add_alias
    found =
        let open_slot : leb max_aliases (length aliases) ≡ false = ground arith in
        ap (λ l. lookup_alias l name 128)
          (if-false aliases (aliases ++ (alias_text name value ∷ [])) open_slot)
        ∙ ap (λ t. lookup_alias (aliases ++ (t ∷ [])) name 128) alias_text-fits
        ∙ lookup_alias-append aliases (name ++ (b'=' ∷ value)) name value free
            (alias_value-alias 127 name value a.plain (omega (arith, a.alias_fits)))
        ∙ ap some (take_all 127 value (omega (arith, a.alias_fits)))

    -- After an alias with a new name is added where there is room, a line of that name and
    -- arguments is expanded to its value and the arguments: the name has no space and no `=` in it,
    -- the alias and the new line fit in their arrays of 128, and the arguments are not blank at the
    -- front.
    pub expand_alias-add_alias :
        expand_alias (add_alias aliases name value) line 128 ≡ some (value ++ (b' ' ∷ arguments))
    unfolding expand_alias
    expand_alias-add_alias =
        ap (λ t. expand_token (add_alias aliases name value) t 128) token
        ∙ expand_token-named (add_alias aliases name value) name (b' ' ∷ arguments) a.named
        ∙ elim-some none
            (λ v. some (with_arguments (copy_string v 128) (skip_spaces (b' ' ∷ arguments)) 128))
            found
        ∙ ap (λ v. some (with_arguments v (skip_spaces (b' ' ∷ arguments)) 128))
            (take_all 127 value (omega (arith, a.line_fits)))
        ∙ ap (λ c. some (with_arguments value c 128))
            (drop_while-append is_space (b' ' ∷ []) arguments refl a.trimmed)
        ∙ ap some (with_arguments_fit value arguments a.argued a.line_fits)
