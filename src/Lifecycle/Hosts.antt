-- ===== src/Lifecycle/Hosts.antt =====
-- Host results of a completion.
use journeyman.Base.{false, ◌≡◌, inl, inr, List, [], ◌∷◌, String, Bool-cases}
use journeyman.Base.Text.{Items, Python, nil, cons, obj, get, text_or_empty}
use journeyman.Lifecycle.Report.{
  HostReport, ok, Ensures, passes, stops, Ensures-bind, Ensures-ok, is_bad_host, parse_hosts,
}

-- a host that may be reported: named, not seen before, and of the slice if the slice has hosts
abbrev pub IsReportable : List String → List String → HostReport → Type 0
IsReportable allowed seen report = is_bad_host report.host seen allowed ≡ false

-- each report may follow those before it
abbrev pub AreReportable : List String → List String → List HostReport → Type 0
AreReportable allowed seen [] = Unit
AreReportable allowed seen (p ∷ ps) =
    IsReportable allowed seen p × AreReportable allowed (p.host ∷ seen) ps

module _ (py : Python) where
  parse_hosts-Ensures :
      (allowed seen : List String) (items : Items)
      → Ensures (AreReportable allowed seen) (parse_hosts py allowed seen items)
  unfolding parse_hosts
  parse_hosts-Ensures allowed seen nil = passes tt
  parse_hosts-Ensures allowed seen (cons (obj item) items) =
      elim (Bool-cases (is_bad_host host seen allowed)) [
        | inl bad ↦ rw bad stops
        | inr good ↦ rw good (
            Ensures-bind _ _ λ status _. Ensures-bind _ _ λ more e.
              passes
                (good, Ensures-ok _ _ more (parse_hosts-Ensures allowed (host ∷ seen) items) e))
      ]
    where
      host : String
      host = py.strip (text_or_empty py (get item "host"))
  parse_hosts-Ensures allowed seen (cons _ items) = stops

  -- The host results that a completion passes on name no host twice and no empty host, and only
  -- hosts of the slice where it has any.
  pub parse_hosts-reportable :
      (allowed : List String) (items : Items) (reports : List HostReport)
      → parse_hosts py allowed [] items ≡ ok reports
      → AreReportable allowed [] reports
  parse_hosts-reportable allowed items reports h =
      Ensures-ok (AreReportable allowed []) _ reports (parse_hosts-Ensures allowed [] items) h
