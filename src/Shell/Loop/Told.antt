-- ===== src/Shell/Loop/Told.antt =====
-- What the hooks are told of a line leaves the rest of the bookkeeping alone.
use honeynet.Base.{◌≡◌, refl, ◌∙◌, Option, none, some, List, [], ◌∷◌, Bytes}
use honeynet.Shell.Parser.{Pipeline, Stage}
use honeynet.Shell.Urls.{extract_urls}
use honeynet.Shell.Session.{on_artifact, Shell}
use honeynet.Shell.Session.Kept.{Gives, panics, gives, Gives-bind, Gives-weaken, commands, Keeps}
use honeynet.Shell.Evaluate.{Handler, log}
use honeynet.Shell.Evaluate.Kept.{log-Keeps}
use honeynet.Shell.Loop.{report_urls, tool_of, report_stages, report_pipelines}

report_urls-Keeps :
    (line tool : Bytes) (s : Shell) (urls : List Bytes) → Keeps s (report_urls line tool s urls)
unfolding report_urls commands
report_urls-Keeps line tool s [] = refl
report_urls-Keeps line tool s (url ∷ urls) =
    report_urls-Keeps line tool (log s (on_artifact url tool line)) urls
    ∙ log-Keeps s (on_artifact url tool line) refl

module _ (Q : Type 0) (builtins : Bytes → Option Handler) (to_lower : Bytes → Bytes)
    (urls_panic : (argv : List Bytes) → extract_urls to_lower argv ≡ none → Q) where
  report_stages-Keeps :
      (line : Bytes) (s : Shell) (sts : List Stage)
      → Gives Q (Keeps s) (report_stages builtins to_lower line s sts)
  unfolding report_stages
  report_stages-Keeps line s [] = gives refl
  report_stages-Keeps line s (st ∷ sts) =
      Gives-bind _ (known (extract_urls to_lower st.argv) refl) λ urls _.
        Gives-weaken (λ t h. h ∙ report_urls-Keeps line (tool_of st.argv) s urls)
          (report_stages-Keeps line (report_urls line (tool_of st.argv) s urls) sts)
    where
      known : (o : Option (List Bytes)) → extract_urls to_lower st.argv ≡ o → Gives Q (λ _. Unit) o
      known none e = panics (urls_panic st.argv e)
      known (some urls) e = gives tt

  pub report_pipelines-Keeps :
      (line : Bytes) (s : Shell) (pls : List Pipeline)
      → Gives Q (Keeps s) (report_pipelines builtins to_lower line s pls)
  unfolding report_pipelines
  report_pipelines-Keeps line s [] = gives refl
  report_pipelines-Keeps line s (pl ∷ pls) =
      Gives-bind _ (report_stages-Keeps line s pl.stages)
        λ t h. Gives-weaken (λ u g. g ∙ h) (report_pipelines-Keeps line t pls)
