-- ===== src/Shell/Sample.antt =====
-- Containers and a lexer for the tests: a container is a list, a lexer's state a list of tokens.
use operating_system_fa_maf.Common.{
  ◌≤◌, ◌<◌, ◌≡◌, refl, ap, Bool, true, false, ◌&&◌, List, [], ◌∷◌, ◌++◌, Option, none, some, length,
  if◌then◌else◌, arith, ◌==◌,
}
use operating_system_fa_maf.Shell.Glib.{Container}
use operating_system_fa_maf.Shell.Command.{Str, Scommand}
use operating_system_fa_maf.Shell.Parsing.Lexer.{ArgKind, Parser}

module _ {A : Type 0} where
  abbrev remove_first : (A → A → Bool) → List A → A → List A
  remove_first same [] a = []
  remove_first same (x ∷ xs) a =
      let rest = remove_first same xs a in if same x a then xs else x ∷ rest

  abbrev is_nil_list : List A → Bool
  is_nil_list [] = true
  is_nil_list (x ∷ xs) = false

  abbrev rest_list : List A → List A
  rest_list [] = []
  rest_list (x ∷ xs) = xs

  abbrev first_list : List A → Option A
  first_list [] = none
  first_list (x ∷ xs) = some x

abbrev pub list_container :
    {A : Type 0} (same : A → A → Bool) → ((a : A) → same a a ≡ true) → Container A
list_container {A} same same_self = record {
  Carrier = List A;
  items = λ c. c;
  nil = [];
  is_nil = is_nil_list;
  append = λ c a. c ++ a ∷ [];
  rest = rest_list;
  first = first_list;
  count = length;
  remove = remove_first same;
  items-nil = refl;
  is_nil-nil = λ c e. ap is_nil_list e;
  is_nil-cons = λ c a as' e. ap is_nil_list e;
  items-append = λ c a. refl;
  items-rest = λ c a as' e. ap rest_list e;
  first-cons = λ c a as' e. ap first_list e;
  count-items = λ c. refl;
  items-remove = λ c a as' e. rw (e, same_self a);
}

abbrev same_str : Str → Str → Bool
same_str [] [] = true
same_str [] (d ∷ ds) = false
same_str (c ∷ cs) [] = false
same_str (c ∷ cs) (d ∷ ds) = (c == d) && same_str cs ds

pub same_str_self : (s : Str) → same_str s s ≡ true
same_str_self [] = refl
same_str_self (c ∷ cs) = ground (arith, same_str_self cs)

abbrev pub words : Container Str
words = list_container same_str same_str_self

-- The commands of a queue are only taken from its front.
abbrev pub queue : Container (Scommand words)
queue = list_container (λ c d. true) (λ c. refl)

pub data Token : Type 0 where
  arg : ArgKind → Str → Token
  bar ampersand : Token

abbrev next_token : List Token → Option (ArgKind × Str) × List Token
next_token (arg kind text ∷ ts) = (some (kind, text), ts)
next_token ts = (none, ts)

abbrev background_token : List Token → Bool × List Token
background_token (ampersand ∷ ts) = (true, ts)
background_token ts = (false, ts)

abbrev pipe_token : List Token → Bool × List Token
pipe_token (bar ∷ ts) = (true, ts)
pipe_token ts = (false, ts)

abbrev rest_of_line : List Token → Bool × List Token
rest_of_line [] = (false, [])
rest_of_line (t ∷ ts) = (true, [])

pub next_token-lt :
    (p : List Token) (a : ArgKind × Str)
    → (next_token p).0 ≡ some a
    → length (next_token p).1 < length p
next_token-lt [] a e = cc
next_token-lt (arg kind text ∷ ts) a e = omega arith
next_token-lt (bar ∷ ts) a e = cc
next_token-lt (ampersand ∷ ts) a e = cc

pub next_token-le : (p : List Token) → length (next_token p).1 ≤ length p
next_token-le [] = omega arith
next_token-le (arg kind text ∷ ts) = omega arith
next_token-le (bar ∷ ts) = omega arith
next_token-le (ampersand ∷ ts) = omega arith

pub background_token-le : (p : List Token) → length (background_token p).1 ≤ length p
background_token-le [] = omega arith
background_token-le (arg kind text ∷ ts) = omega arith
background_token-le (bar ∷ ts) = omega arith
background_token-le (ampersand ∷ ts) = omega arith

pub pipe_token-lt : (p : List Token) → (pipe_token p).0 ≡ true → length (pipe_token p).1 < length p
pipe_token-lt [] e = cc
pipe_token-lt (arg kind text ∷ ts) e = cc
pipe_token-lt (bar ∷ ts) e = omega arith
pipe_token-lt (ampersand ∷ ts) e = cc

pub pipe_token-le : (p : List Token) → length (pipe_token p).1 ≤ length p
pipe_token-le [] = omega arith
pipe_token-le (arg kind text ∷ ts) = omega arith
pipe_token-le (bar ∷ ts) = omega arith
pipe_token-le (ampersand ∷ ts) = omega arith

abbrev pub tokens : Parser
tokens = record {
  State = List Token;
  next_argument = next_token;
  op_background = background_token;
  op_pipe = pipe_token;
  skip_blanks = λ p. p;
  garbage = rest_of_line;
  at_eof = is_nil_list;
  remaining = length;
  next_consumes = next_token-lt;
  next_le = next_token-le;
  background_le = background_token-le;
  pipe_consumes = pipe_token-lt;
  pipe_le = pipe_token-le;
}

abbrev pub ls : Str
ls = b'l' ∷ b's' ∷ []

abbrev pub wc : Str
wc = b'w' ∷ b'c' ∷ []
