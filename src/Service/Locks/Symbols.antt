-- ===== src/Service/Locks/Symbols.antt =====
-- internal/service/service.go: the Go symbol that a code lock selects in its content. What go/parser
-- answers, and the case folding of package strings, are fields of `GoTools`.
use multi_agent_com.Base.{
  ℕ, String, Option, none, some, Bool, true, false, List, [], ◌∷◌, ◌==◌, ◌+++◌, ◌&&◌, ◌||◌, not,
  trim, is_empty, cut, if◌then◌else◌,
}
use multi_agent_com.Service.State.{World, Result, ok, err, validation_error, error_text}

-- The expressions that `goReceiverTypeName` tells apart.
pub data Expr : Type 0 where
  ident : String → Expr
  star : Expr → Expr
  index : Expr → Expr
  index_list : Expr → Expr
  other : Expr

-- Where a node of the syntax tree stands in the file: its documentation, if any, its first byte and
-- the byte after its last one.
pub record Place : Type 0 where
  pub doc : Option ℕ
  pub first : ℕ
  pub last : ℕ

pub data Spec : Type 0 where
  type_spec : String → Place → Spec
  value_spec : List String → Place → Spec
  import_spec : Place → Spec

pub data Token : Type 0 where
  type_token : Token
  var_token : Token
  const_token : Token
  import_token : Token

-- A function with its receivers, if it has them, or a group of types, variables, constants or
-- imports.
pub data Decl : Type 0 where
  func_decl : String → Option (List Expr) → Place → Decl
  gen_decl : Token → List Spec → Place → Decl

-- What the code uses of go/parser (a text that fails, or the declarations) and of package strings.
pub record GoTools : Type 0 where
  pub parse : String → Result (List Decl)
  pub equal_fold : String → String → Bool

-- `goSymbolSelector`
pub record Selector : Type 0 where
  pub name : String
  pub receiver : String

-- `goSymbolMatch`
pub record Match : Type 0 where
  pub first : ℕ
  pub last : ℕ
  pub decl_first : ℕ
  pub decl_last : ℕ
  pub grouped : Bool

-- `isSupportedGoSymbolKind`
unfoldable pub is_supported_kind : World → String → Bool
is_supported_kind w kind =
    let k = w.to_lower (trim kind) in
    (k == "func") || (k == "method") || (k == "type") || (k == "var") || (k == "const")

-- `parseGoSymbolSelector`
unfoldable pub parse_selector : GoTools → String → String → Selector
parse_selector g kind name =
    if g.equal_fold (trim kind) "method"
    then elim (cut 46 (trim name)) [
      | none ↦ record { name = trim name; receiver = "" }
      | some (receiver, method) ↦ record { name = trim method; receiver = trim receiver }
    ]
    else record { name = trim name; receiver = "" }

-- `goSymbolSelector.DisplayName`
unfoldable pub display_name : Selector → String
display_name s = if is_empty s.receiver then s.name else s.receiver +++ ("." +++ s.name)

-- `goReceiverTypeName`
unfoldable pub receiver_name : Expr → String
receiver_name (ident name) = name
receiver_name (star e) = receiver_name e
receiver_name (index e) = receiver_name e
receiver_name (index_list e) = receiver_name e
receiver_name other = ""

abbrev pub receives : List Expr → String → Bool
receives [] receiver = false
receives (e ∷ es) receiver = (receiver_name e == receiver) || receives es receiver

-- `goMethodReceiverMatches`
unfoldable pub receiver_matches : Option (List Expr) → String → Bool
receiver_matches none receiver = false
receiver_matches (some es) receiver = is_empty receiver || receives es receiver

-- `goNodeStartOffset`
unfoldable pub start_offset : Place → ℕ
start_offset p = elim p.doc [ none ↦ p.first | some at ↦ at ]

-- `goSpecName`
unfoldable pub spec_name : Spec → String
spec_name (type_spec name p) = name
spec_name (value_spec (name ∷ []) p) = name
spec_name (value_spec [] p) = ""
spec_name (value_spec (name ∷ (next ∷ names)) p) = ""
spec_name (import_spec p) = ""

-- `goSpecDoc`, with the bounds of the entry.
abbrev pub spec_place : Spec → Place
spec_place (type_spec name p) = p
spec_place (value_spec names p) = p
spec_place (import_spec p) = record p { doc = none }

-- A group of types, variables or constants is searched for its own kind alone.
unfoldable pub other_kind : Token → String → Bool
other_kind type_token kind = not (kind == "type")
other_kind var_token kind = not (kind == "var")
other_kind const_token kind = not (kind == "const")
other_kind import_token kind = false

abbrev pub several : List Spec → Bool
several [] = false
several (x ∷ []) = false
several (x ∷ (y ∷ xs)) = true

-- The loop of `goDeclSymbolRange` over the entries of a group.
unfoldable pub spec_range : Place → Bool → Selector → List Spec → Option Match
unfolding start_offset
spec_range p grouped s [] = none
spec_range p grouped s (x ∷ xs) =
    let rest = spec_range p grouped s xs in
    if spec_name x == s.name
    then some (
        if grouped
        then record {
          first = start_offset (spec_place x);
          last = (spec_place x).last;
          decl_first = start_offset p;
          decl_last = p.last;
          grouped = true;
        }
        else record {
          first = start_offset p;
          last = p.last;
          decl_first = 0;
          decl_last = 0;
          grouped = false;
        })
    else rest

-- `goDeclSymbolRange`
unfoldable pub decl_range : Decl → String → Selector → Option Match
unfolding start_offset receiver_matches
decl_range (func_decl name receivers p) kind s =
    if (name == s.name)
      && ((kind == "func") && elim receivers [ none ↦ true | some es ↦ false ]
          || (kind == "method") && receiver_matches receivers s.receiver)
    then some (record {
      first = start_offset p;
      last = p.last;
      decl_first = 0;
      decl_last = 0;
      grouped = false;
    })
    else none
decl_range (gen_decl token specs p) kind s =
    if other_kind token kind then none else spec_range p (several specs) s specs

-- The loop of `findGoSymbolMatch`.
unfoldable pub first_range : List Decl → String → Selector → Option Match
first_range [] kind s = none
first_range (d ∷ ds) kind s = elim (decl_range d kind s) [
  | some m ↦ some m
  | none ↦ first_range ds kind s
]

-- `findGoSymbolMatch`
unfoldable pub find_symbol : World → GoTools → String → String → Selector → Result Match
unfolding display_name error_text
find_symbol w g source kind s = elim (g.parse source) [
  | err e ↦
      err (validation_error ("go_symbol lock content must be parseable Go: " +++ error_text e))
  | ok decls ↦ elim (first_range decls (w.to_lower (trim kind)) s) [
    | some m ↦ ok m
    | none ↦ err (
        validation_error (
          "go_symbol lock content must contain Go "
          +++ (w.to_lower (trim kind) +++ (" " +++ display_name s))))
  ]
]
