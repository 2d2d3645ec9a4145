-- ===== src/Tests/Columns.antt =====
-- What the columns of a job hold, on concrete values.
use mt_jobs.Base.{String, true, false, some, ◌≡◌, refl}
use mt_jobs.Models.Json.{Json, nil, cons, end, field}
use mt_jobs.Domain.Exceptions.{err}
use mt_jobs.Store.Columns.{fits, has_nul, json_has_nul}
use mt_jobs.Store.Db.{not_storable}
use mt_jobs.Services.Submission.{submit_job}
use mt_jobs.Tests.Scenario.{run_all, report, w0}

fits_short : fits 4 "four" ≡ true
unfolding fits has_nul
fits_short = refl

fits_long : fits 3 "four" ≡ false
unfolding fits has_nul
fits_long = refl

abbrev nul : String
nul = "a\0"

nul_inside :
    json_has_nul
      (Json.obj (field "k" (Json.arr (cons (Json.str "b") (cons (Json.str nul) nil))) end))
    ≡ true
unfolding json_has_nul has_nul
nul_inside = refl

submit_nul :
    submit_job 100 "u" (record report { payload = some (Json.str nul) }) w0.db
    ≡ (err not_storable, w0.db)
unfolding run_all
submit_nul = refl
