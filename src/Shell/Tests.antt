-- ===== src/Shell/Tests.antt =====
-- Commands of src/apps/shell/shell.c on small lines.
use project_orange_tea.Base.{◌≡◌, refl, true, false, none, some, [], ◌∷◌, codes, arith}
use project_orange_tea.Shell.Alias.{add_alias, lookup_alias, expand_alias}
use project_orange_tea.Shell.Expansion.{IsAlias, expand_alias-add_alias}
use project_orange_tea.Shell.Paths.{path_is_protected}
use project_orange_tea.Shell.Create.{components, file_request, file_request_of}
use project_orange_tea.Shell.Create.Parents.{AllShorter, components-AllShorter}

listing-IsAlias : IsAlias (codes "ll") (codes "ls -l") (codes "/C:")
listing-IsAlias = record {
  named = omega arith;
  spaceless = refl;
  plain = refl;
  alias_fits = omega arith;
  line_fits = omega arith;
  argued = omega arith;
  trimmed = refl;
}

no_alias : lookup_alias [] (codes "ll") 128 ≡ none
unfolding lookup_alias
no_alias = refl

expand_alias-add_alias_example :
    expand_alias (add_alias [] (codes "ll") (codes "ls -l")) (codes "ll /C:") 128
    ≡ some (codes "ls -l /C:")
expand_alias-add_alias_example =
    expand_alias-add_alias (codes "ll") (codes "ls -l") (codes "/C:") listing-IsAlias []
      (omega arith) no_alias

components-AllShorter_example : AllShorter 8 (components (codes "/C:/a/bc"))
components-AllShorter_example = components-AllShorter (codes "/C:/a/bc")

-- The last directory asked for lacks the last character.
asked_for : components (codes "/C:/a/bc") ≡ codes "/C:" ∷ codes "/C:/a" ∷ codes "/C:/a/b" ∷ []
unfolding project_orange_tea.Shell.Create.components_from
asked_for = refl

requested : file_request_of (codes "\"a b\" > c.txt") ≡ file_request (codes "a b") (codes "c.txt")
unfolding file_request_of project_orange_tea.Shell.Words.read_word
requested = refl

-- A tree is protected with what is below it; its name with more characters behind it is not.
guarded : path_is_protected (codes "/C:/System/x") ≡ true
unfolding path_is_protected
guarded = refl

unguarded : path_is_protected (codes "/C:/System2") ≡ false
unfolding path_is_protected project_orange_tea.Storage.Bytes.equal
unguarded = refl
