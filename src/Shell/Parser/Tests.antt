-- ===== src/Shell/Parser/Tests.antt =====
-- Runs of the shell parser, and the theorems at concrete inputs.
use honeynet.Base.{
  ◌≡◌, refl, inl, true, false, List, [], ◌∷◌, map, Bytes, codes, encode, encode_rune, equal, runes,
  is_space, arith,
}
use honeynet.Shell.Parser.{
  Token, plain, step, step_plain, step_double, double_operator, scan, tokenize, Pipeline, no_stage,
  flush_stage, close_pipeline, flush_pipeline, redirect, push_word, operate, accept, accept_all,
  parse_tokens, parse,
}
use honeynet.Shell.Parser.Quoting.{quote_line, word, tokenize-quote_line, parse-quote_line}
use honeynet.Shell.Parser.Shape.{IsParsed, parse-IsParsed}
use honeynet.Shell.Parser.Words.{words, all_words, parse_tokens-words}
use honeynet.Shell.Parser.Escapes.{between, scan_escaped_operator}

abbrev one : List Bytes → Pipeline
one argv = record { stages = record no_stage { argv = argv } ∷ []; next = []; background = false }

parse_chain :
    parse (codes "cd /tmp || cd '/var run'; wget \"http://a\" >x &")
    ≡ record (one (codes "cd" ∷ codes "/tmp" ∷ [])) { next = codes "||" }
      ∷ record (one (codes "cd" ∷ codes "/var run" ∷ [])) { next = codes ";" }
      ∷ record {
        stages =
            record no_stage {
              argv = codes "wget" ∷ codes "http://a" ∷ [];
              redirect_out = codes "x";
            }
            ∷ [];
        next = codes ";";
        background = true;
      }
      ∷ []
unfolding parse parse_tokens tokenize runes scan step step_plain step_double double_operator
    is_space encode_rune equal accept_all accept operate push_word redirect flush_pipeline
    flush_stage close_pipeline
parse_chain = refl

-- `2>&1` sends the output to a file `&`, and leaves the words `2` and `1`.
parse_fd_copy :
    parse (codes "ls 2>&1")
    ≡ record {
      stages =
          record no_stage {
            argv = codes "ls" ∷ codes "2" ∷ codes "1" ∷ [];
            redirect_out = codes "&";
          }
          ∷ [];
      next = [];
      background = false;
    }
      ∷ []
unfolding parse parse_tokens tokenize runes scan step step_plain step_double double_operator
    is_space encode_rune equal accept_all accept operate push_word redirect flush_pipeline
    flush_stage close_pipeline
parse_fd_copy = refl

tokenize-quote_line_example :
    tokenize (encode (quote_line (codes "a\"b" ∷ [] ∷ []))) ≡ map word (codes "a\"b" ∷ [] ∷ [])
tokenize-quote_line_example = tokenize-quote_line (codes "a\"b" ∷ [] ∷ []) (omega arith)

parse-quote_line_example :
    parse (encode (quote_line (codes "echo" ∷ codes "a;b" ∷ [])))
    ≡ one (map encode (codes "echo" ∷ codes "a;b" ∷ [])) ∷ []
parse-quote_line_example = parse-quote_line (codes "echo") (codes "a;b" ∷ []) (omega arith)

parse-IsParsed_example : IsParsed (parse (codes "a | b && c"))
parse-IsParsed_example = parse-IsParsed (codes "a | b && c")

abbrev tokens : List Token
tokens =
    record { text = codes "a"; quoted = false }
    ∷ record { text = codes ";"; quoted = true }
    ∷ record { text = codes ">"; quoted = false }
    ∷ record { text = codes "x"; quoted = false }
    ∷ record { text = codes ";"; quoted = false }
    ∷ record { text = codes "b"; quoted = false }
    ∷ []

words-tokens : words false tokens ≡ codes "a" ∷ codes ";" ∷ codes "b" ∷ []
unfolding words equal
words-tokens = refl

parse_tokens-words_example : all_words (parse_tokens tokens) ≡ words false tokens
parse_tokens-words_example = parse_tokens-words tokens

escaped_semicolon :
    scan plain (between []) (b'\\' ∷ b';' ∷ b' ' ∷ codes "x")
    ≡ scan plain (between []) (b';' ∷ b' ' ∷ codes "x")
escaped_semicolon = scan_escaped_operator [] b';' (codes "x") (inl refl)
