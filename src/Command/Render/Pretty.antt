-- ===== src/Command/Render/Pretty.antt =====
-- `pretty` and `json` of render.rs, as the lines that they print. A line that standard output does not
-- take is a panic of `println!`.
use webrtc_doctor.Prelude.{
  ℕ, ◌+◌, ◌-◌, max, ◌&&◌, List, [], ◌∷◌, ◌++◌, map, length, replicate, leb, ltb, bytes_eq,
  if◌then◌else◌,
}
use webrtc_doctor.Prelude.Text.{Text, text, show_nat}
use webrtc_doctor.Probe.Platform.{given, io_failed}
use webrtc_doctor.Report.Status.{CheckStatus, pass, warn, fail, skip, CheckResult}
use webrtc_doctor.Report.Verdict.{Verdict, healthy, warnings, failed, Report, verdict, counts}
use webrtc_doctor.Command.Target.{message}
use webrtc_doctor.Command.Program.{Program, reached, panicked, ◌>>=◌, pure, bail}
use webrtc_doctor.Command.Services.{
  Services, Style, green, yellow, red, dimmed, cyan, magenta, blue, bold, normal,
}
use webrtc_doctor.Command.Render.Candidates.{Row, candidate_rows}

-- `{:<width$}` of a text counts its characters, the bytes that do not continue one.
abbrev chars : Text → ℕ
chars [] = 0
chars (b ∷ bs) = if leb 0x80 b && ltb b 0xC0 then chars bs else chars bs + 1

abbrev pad : ℕ → Text → Text
pad width t = t ++ replicate (width - chars t) b' '

-- `iter().map(..).max().unwrap_or(0)` of the lengths
abbrev widest : List Text → ℕ
widest [] = 0
widest (t ∷ ts) = max (length t) (widest ts)

abbrev kind_color : Text → Style
kind_color kind =
    if bytes_eq kind (text "host")
    then cyan
    else if bytes_eq kind (text "srflx")
    then magenta
    else if bytes_eq kind (text "relay")
    then blue
    else normal

module _ (services : Services) where
  -- `println!`
  unfoldable pub print : Text → Program services.platform.World (Unit {0})
  print line w =
      if (services.println line w).0 then reached tt ((services.println line w).1) else panicked

  unfoldable pub print_all : List Text → Program services.platform.World (Unit {0})
  print_all [] = pure tt
  print_all (line ∷ lines) = do u ← print line; print_all lines

  -- The lines of `print_candidates`.
  abbrev candidate_lines : List Row → List Text
  candidate_lines rows =
      map
        (λ row.
          text "      "
          ++ services.paint (kind_color (row.0) ∷ []) 5 (row.0)
          ++ text "  "
          ++ pad (widest (map (λ r. r.1) rows)) (row.1)
          ++ text "  "
          ++ services.paint (dimmed ∷ []) 0 (row.2))
        rows

  abbrev glyph : CheckStatus → Text
  glyph pass = services.paint (green ∷ []) 0 (text "✓")
  glyph warn = services.paint (yellow ∷ []) 0 (text "⚠")
  glyph fail = services.paint (red ∷ []) 0 (text "✗")
  glyph skip = services.paint (dimmed ∷ []) 0 (text "·")

  abbrev dim_skip : CheckStatus → Text → Text
  dim_skip skip line = services.paint (dimmed ∷ []) 0 line
  dim_skip _ line = line

  -- The body of the loop over the results.
  abbrev pub result_lines : ℕ → CheckResult → List Text
  result_lines max_id r =
      dim_skip r.status
        (text "  " ++ glyph r.status ++ text " " ++ pad max_id r.id ++ text "  " ++ r.summary)
      ∷ (if bytes_eq r.id (text "ice.gather")
          then candidate_lines (candidate_rows r.detail)
          else [])

  abbrev all_lines : ℕ → List CheckResult → List Text
  all_lines max_id [] = []
  all_lines max_id (r ∷ rs) = result_lines max_id r ++ all_lines max_id rs

  abbrev verdict_text : Verdict → Text
  verdict_text healthy = services.paint (green ∷ bold ∷ []) 0 (text "HEALTHY")
  verdict_text warnings = services.paint (yellow ∷ bold ∷ []) 0 (text "WARNINGS")
  verdict_text failed = services.paint (red ∷ bold ∷ []) 0 (text "FAILED")

  abbrev pub pretty_lines : Report → Text → List Text
  pretty_lines report header =
      let c = counts report in
      (text "webrtc-doctor " ++ services.version ++ text " — " ++ header)
        ∷ all_lines (widest (map (λ r. r.id) report.results)) report.results
      ++ []
        ∷ (show_nat (c.0)
            ++ text " pass · "
            ++ show_nat (c.1)
            ++ text " warn · "
            ++ show_nat (c.2)
            ++ text " fail · "
            ++ show_nat (c.3)
            ++ text " skip        verdict: "
            ++ verdict_text (verdict report))
        ∷ []

  unfoldable pub pretty : Report → Text → Program services.platform.World (Unit {0})
  pretty report header = print_all (pretty_lines report header)

  unfoldable pub json : Report → Program services.platform.World (Unit {0})
  json report = elim (services.to_string_pretty report) [
    | io_failed e ↦ bail (message e)
    | given s ↦ print s
  ]
