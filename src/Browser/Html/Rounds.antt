-- ===== src/Browser/Html/Rounds.antt =====
-- src/apps/browser.c: the loop of the HTML parser comes to the end of every text.
use project_orange_tea.Base.{
  ℕ, zero, suc, ◌≤◌, ◌≡◌, refl, Bool, true, false, Option, some, List, [], ◌∷◌, ◌==◌, take, length,
  take_while, drop_while, length-drop_while, arith,
}
use project_orange_tea.Browser.Html.{
  Document, append_text_node, not_close, not_open, ParseMore, after_open, parse_rounds,
}

-- Both ways on come to the end of a text of `n` characters at most, with the same document.
abbrev Agree : ParseMore → ParseMore → ℕ → Type 0
Agree more other n =
    (d : Document) (html : List ℕ)
    → length html ≤ n
    → (e : Document) × (more d html ≡ some e) × (other d html ≡ some e)

after_open-Agree :
    (more other : ParseMore) (n : ℕ)
    → Agree more other n
    → (d : Document) (text rest : List ℕ) → length text ≤ n
    → length rest ≤ n
    → (e : Document) × (after_open more d text rest ≡ some e)
      × (after_open other d text rest ≡ some e)
after_open-Agree more other n h d text [] fits _ = h d text fits
after_open-Agree more other n h d text (c ∷ rest) _ fits = h _ rest (omega (arith, fits))

parse_rounds-Agree : (m n l : ℕ) → l ≤ m → l ≤ n → Agree (parse_rounds m) (parse_rounds n) l
unfolding parse_rounds
parse_rounds-Agree zero zero l hm hn d [] fits = (d, refl, refl)
parse_rounds-Agree zero zero l hm hn d (c ∷ html) fits = absurd (omega (arith, fits, hm))
parse_rounds-Agree zero (suc n) l hm hn d [] fits = (d, refl, refl)
parse_rounds-Agree zero (suc n) l hm hn d (c ∷ html) fits = absurd (omega (arith, fits, hm))
parse_rounds-Agree (suc m) zero l hm hn d [] fits = (d, refl, refl)
parse_rounds-Agree (suc m) zero l hm hn d (c ∷ html) fits = absurd (omega (arith, fits, hn))
parse_rounds-Agree (suc m) (suc n) l hm hn d [] fits = (d, refl, refl)
parse_rounds-Agree (suc m) (suc n) l hm hn d (c ∷ html) fits =
    by_test
      (parse_rounds-Agree m n (length html) (omega (arith, fits, hm)) (omega (arith, fits, hn)))
      (c == b'<') refl
  where
    more : ParseMore
    more = parse_rounds m

    other : ParseMore
    other = parse_rounds n

    by_test :
        Agree more other (length html)
        → (b : Bool) → c == b'<' ≡ b
        → (e : Document) × (elim b as (λ _. Option Document) [
          | true ↦ after_open more d html (drop_while not_close html)
          | false ↦
              more
                (append_text_node d (take 255 (take_while not_open (c ∷ html))))
                (drop_while not_open (c ∷ html))
        ]
            ≡ some e)
          × (elim b as (λ _. Option Document) [
            | true ↦ after_open other d html (drop_while not_close html)
            | false ↦
                other
                  (append_text_node d (take 255 (take_while not_open (c ∷ html))))
                  (drop_while not_open (c ∷ html))
          ]
              ≡ some e)
    by_test h true e =
        after_open-Agree more other (length html) h d html _ (omega arith)
          (length-drop_while not_close html)
    by_test h false e = h _ _ (ground (arith, length-drop_while not_open html, e))

-- As many rounds as the text has characters bring the parser to the end of every text, from every
-- document, and more rounds give the same document.
pub parse_rounds_enough :
    (rounds : ℕ) (d : Document) (html : List ℕ)
    → length html ≤ rounds
    → (e : Document) × (parse_rounds (length html) d html ≡ some e)
      × (parse_rounds rounds d html ≡ some e)
parse_rounds_enough rounds d html h =
    parse_rounds-Agree (length html) rounds (length html) (omega arith) h d html (omega arith)
