-- ===== src/Ir/Types/Tests.antt =====
-- A catalogue of posts, and expressions whose type their values have or, for reads of nothing, miss.
use fct.Base.{
  ℕ, true, false, ◌≡◌, refl, sym, subst, inl, inr, none, List, [], ◌∷◌, String, ◌==◌, string_eq,
  if◌then◌else◌, lookup, elem, all, leb, ltb, nat_eq, ◌+◌, ◌-◌, Bool-cases, arith,
}
use fct.Base.Text.{codes}
use fct.Runtime.Value.{
  Any, nil, int, bool, text, items, row, end, field, Host, done, more, read_field, list_rows,
  to_int, to_str,
}
use fct.Runtime.Value.Ops.{apply_bin, plus, times, eq}
use fct.Runtime.Value.Equal.{equal}
use fct.Runtime.Value.Reduce.{sum}
use fct.Runtime.Eval.{Env, CallBuiltin, eval}
use fct.Runtime.Eval.Same.{is_apart}
use fct.Ir.Lower.{
  Node, literal, name, field_of, entity_get, binary, aggregate, list_lit, and_node, no_node, opt,
  no_opt, reduce, lower,
}
use fct.Ir.Types.{
  one, Tables, Locals, field_type, unify, name_type, expr_type, numeric, binary_type, arith_type,
  plus_type, agreed,
}
use fct.Ir.Types.Fits.{IsProper, Matches, fits, fits_core, firm, sound_form}
use fct.Ir.Types.Sound.{eval-fits}

abbrev whole_numbers : Host ℕ
whole_numbers = record {
  of_int = λ n. n;
  to_whole = λ f. f;
  add = λ a b. a + b;
  sub = λ a b. a - b;
  mul = λ a b. a;
  div = λ a b. a;
  neg = λ a. a;
  trunc = λ a. a;
  eq = λ a b. a == b;
  lt = ltb;
  le = leb;
  is_nan = λ a. false;
  is_inf = λ a. false;
  format = λ a. [];
  trim_space = λ s. s;
  is_numeric = λ s. false;
  parse_whole = λ s. none;
  parse_float = λ s. (0, true);
}

abbrev catalogue : Tables
catalogue = record {
  enums = "Status" ∷ [];
  entities = ("Post", ("title", "text") ∷ ("likes", "int") ∷ []) ∷ [];
  states = [];
}

abbrev post : Any ℕ
post = row (field "id" (int 1) (field "title" (text (codes "one")) (field "likes" (int 4) end)))

abbrev text_names : List String
text_names = "actor" ∷ "role" ∷ "tenantRole" ∷ "route" ∷ "session" ∷ "sessionToken" ∷ []

abbrev posts : Env ℕ
posts x =
    if x == "Post"
    then items (more post (more post done))
    else if x == "verified"
    then bool true
    else if x == "tenant"
    then int 0
    else text []

abbrev no_locals : Locals
no_locals x = none

abbrev no_calls : CallBuiltin ℕ
no_calls f args = nil

-- sum(p.likes * 2 in Post where p.likes == 4)
abbrev twice_likes : Node ℕ
twice_likes =
    aggregate (reduce sum) "" "p" "Post"
      (opt (binary eq (field_of (name "p") "likes") (literal "int" (int 4))))
      (opt (binary times (field_of (name "p") "likes") (literal "int" (int 2)))) no_opt

catalogue-IsProper : IsProper catalogue
unfolding unify lookup
catalogue-IsProper = record {
  int_unify = refl;
  int_alone = refl;
  text_unify = refl;
  text_alone = refl;
  bool_unify = refl;
  bool_alone = refl;
  json_unify = refl;
  json_alone = refl;
  entity_unify = λ c e. elim (Bool-cases ("Post" == c)) [
    | inl same ↦ subst (λ d. unify catalogue d ≡ "int") ((string_eq.decides "Post" c).0 same) refl
    | inr other ↦ absurd (ground (arith, e))
  ];
  enum_unify = λ c e. elim (Bool-cases ("Status" == c)) [
    | inl same ↦
        subst (λ d. unify catalogue d ≡ "text") ((string_eq.decides "Status" c).0 same) refl
    | inr other ↦ absurd (ground (arith, e))
  ];
  enum_alone = λ c e. elim (Bool-cases ("Status" == c)) [
    | inl same ↦
        subst (λ d. lookup d catalogue.entities ≡ none) ((string_eq.decides "Status" c).0 same) refl
    | inr other ↦ absurd (ground (arith, e))
  ];
}

posts_names : (x : String) → fits catalogue (name_type catalogue no_locals x) (posts x) ≡ true
unfolding fits fits_core unify name_type lookup
posts_names x = elim (Bool-cases (x == "Post")) [
  | inl a ↦ at "Post" a refl
  | inr not_post ↦ elim (Bool-cases (x == "verified")) [
    | inl a ↦ at "verified" a refl
    | inr not_flag ↦ elim (Bool-cases (x == "tenant")) [
      | inl a ↦ at "tenant" a refl
      | inr other ↦
          rw (not_post, not_flag, other)
            (elim (Bool-cases (elem x text_names)) [ inl t ↦ rw t refl | inr t ↦ rw t refl ])
    ]
  ]
]
  where
    at :
        (y : String)
        → (x == y) ≡ true
        → fits catalogue (name_type catalogue no_locals y) (posts y) ≡ true
        → fits catalogue (name_type catalogue no_locals x) (posts x) ≡ true
    at y a f =
        subst (λ z. fits catalogue (name_type catalogue no_locals z) (posts z) ≡ true)
          (sym ((string_eq.decides x y).0 a)) f

posts_rows : (c : String) → all (fits_core catalogue c) (list_rows (posts c)) ≡ true
unfolding fits_core unify list_rows lookup read_field
posts_rows c = elim (Bool-cases (c == "Post")) [
  | inl a ↦
      subst (λ z. all (fits_core catalogue z) (list_rows (posts z)) ≡ true)
        (sym ((string_eq.decides c "Post").0 a)) refl
  | inr not_post ↦ rw not_post (elim (Bool-cases (c == "verified")) [
    | inl a ↦ rw a refl
    | inr b ↦ elim (Bool-cases (c == "tenant")) [ inl a ↦ rw (b, a) refl | inr d ↦ rw (b, d) refl ]
  ])
]

posts-Matches : Matches catalogue no_locals posts
posts-Matches = record { names = posts_names; collections = posts_rows }

eval-fits_example :
    fits catalogue (one "int") (
      eval whole_numbers no_calls true
        (lower whole_numbers (field_type catalogue) catalogue.enums twice_likes)
        posts)
    ≡ true
unfolding expr_type sound_form firm lower field_type unify lookup is_apart numeric binary_type
    arith_type name_type
eval-fits_example =
    eval-fits whole_numbers no_calls catalogue twice_likes no_locals posts catalogue-IsProper
      posts-Matches refl refl

-- Post(9).title + Post(9).title is a text by its type and the int 0 by its value.
abbrev titles : Node ℕ
titles =
    binary plus (entity_get "Post" (literal "int" (int 9)) "title")
      (entity_get "Post" (literal "int" (int 9)) "title")

titles_type : expr_type catalogue no_locals titles ≡ one "text"
unfolding expr_type lookup field_type unify binary_type plus_type
titles_type = refl

titles_value :
    eval whole_numbers no_calls true
      (lower whole_numbers (field_type catalogue) catalogue.enums titles)
      posts
    ≡ int 0
unfolding eval lower lookup list_rows read_field apply_bin equal to_int
titles_value = refl

-- [1] + ["a"] is a list of ints by its type.
abbrev mixed : Node ℕ
mixed =
    binary plus (list_lit (and_node (literal "int" (int 1)) no_node))
      (list_lit (and_node (literal "text" (text (codes "a"))) no_node))

mixed_type : expr_type catalogue no_locals mixed ≡ record { core = "int"; is_list = true }
unfolding expr_type binary_type plus_type agreed
mixed_type = refl

mixed_value :
    eval whole_numbers no_calls true
      (lower whole_numbers (field_type catalogue) catalogue.enums mixed)
      posts
    ≡ items (more (int 1) (more (text (codes "a")) done))
unfolding eval lower apply_bin to_str to_int
mixed_value = refl
