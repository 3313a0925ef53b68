-- ===== src/Tests/LexerTests.antt =====
-- Runs of the two lexers of larking/lexer.go.
use Prim.Native.String.{String}
use larking.Base.{[], ◌∷◌, ◌≡◌, ◌≢◌, ◌≤◌, refl, length, codes, Bytes}
use larking.Lexer.Rune.{decode_rune, is_letter, is_path}
use larking.Lexer.State.{
  Token, TokenType, Lexer, Lexed, ok, err, out_of_fuel, text, next, emit, accept_run, current,
  backup, slash, literal, variable_start, ident, equal, star, variable_end, verb, end_of_file,
  path_text, err_short, err_unexpected,
}
use larking.Lexer.Route.{lex_path, lex_path_at, lex_path_segment}
use larking.Lexer.Template.{
  lex_template, lex_segments, lex_segment, lex_variable, lex_fields, lex_field_path, lex_ident,
  lex_literal, lex_verb, close_variable,
}
use larking.Lexer.Grammar.{IsRoute, IsTemplate}
use larking.Lexer.Accounts.{lex_path_accounts, lexers_end}
use larking.Lexer.RouteShape.{lex_path-IsRoute}
use larking.Lexer.TemplateShape.{lex_template-IsTemplate}
use larking.Tests.Settings.{latin}

abbrev tok : TokenType → String → Token
tok t s = record { val = codes s; typ = t }

abbrev lexer_of : Lexed → Lexer
lexer_of (ok l) = l
lexer_of (err e l) = l

abbrev pub shelf_template : Bytes
shelf_template = codes "/v1/{name=shelves/*}:read"

abbrev pub shelf_lexer : Lexer
shelf_lexer = lexer_of (lex_template latin shelf_template)

abbrev path_lexer : Lexer
path_lexer = lexer_of (lex_path latin (codes "/a/b:c"))

unfoldable pub runs : Unit {0}
unfolding decode_rune is_letter is_path next emit accept_run current backup err_short err_unexpected
    lex_path lex_path_at lex_path_segment lex_template lex_segments lex_segment lex_variable
    lex_fields lex_field_path lex_ident lex_literal lex_verb close_variable
runs = tt

template_toks :
    shelf_lexer.toks
    ≡ tok slash "/"
      ∷ tok literal "v1"
      ∷ tok slash "/"
      ∷ tok variable_start "{"
      ∷ tok ident "name"
      ∷ tok equal "="
      ∷ tok literal "shelves"
      ∷ tok slash "/"
      ∷ tok star "*"
      ∷ tok variable_end "}"
      ∷ tok verb ":"
      ∷ tok literal "read"
      ∷ tok end_of_file ""
      ∷ []
unfolding runs
template_toks = refl

path_toks :
    path_lexer.toks
    ≡ tok slash "/"
      ∷ tok path_text "a"
      ∷ tok slash "/"
      ∷ tok path_text "b"
      ∷ tok verb ":"
      ∷ tok path_text "c"
      ∷ tok end_of_file ""
      ∷ []
unfolding runs
path_toks = refl

pub shelf_lexes : lex_template latin shelf_template ≡ ok shelf_lexer
unfolding runs
shelf_lexes = refl

path_lexes : lex_path latin (codes "/a/b:c") ≡ ok path_lexer
unfolding runs
path_lexes = refl

lex_path_accounts_example : (text path_lexer.toks ≡ codes "/a/b:c") × (length path_lexer.toks ≤ 64)
lex_path_accounts_example = lex_path_accounts latin (codes "/a/b:c") path_lexer path_lexes

lexers_end_example :
    (lex_path latin shelf_template ≢ err out_of_fuel shelf_lexer)
    × (lex_template latin shelf_template ≢ err out_of_fuel shelf_lexer)
lexers_end_example = lexers_end latin shelf_template shelf_lexer

lex_path-IsRoute_example : IsRoute path_lexer.toks
lex_path-IsRoute_example = lex_path-IsRoute latin (codes "/a/b:c") path_lexer path_lexes

lex_template-IsTemplate_example : IsTemplate shelf_lexer.toks
lex_template-IsTemplate_example =
    lex_template-IsTemplate latin shelf_template shelf_lexer shelf_lexes
