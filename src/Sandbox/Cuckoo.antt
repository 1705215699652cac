-- ===== src/Sandbox/Cuckoo.antt =====
-- internal/sandbox/cuckoo.go: the backend of Cuckoo.
use s3nitor.Prelude.{
  ℕ, String, str_append, str_eq, Bool, ◌&&◌, List, [], ◌∷◌, any, length, if◌then◌else◌,
}
use s3nitor.Prelude.Int.{ℤ, pos, eqb_ℤ}
use s3nitor.Scanner.{Float64, Detail, int, text, texts, failure}
use s3nitor.Fallible.{Try, ok, err, ◌>>=◌}
use s3nitor.Sandbox.{Backend, Floats, gt}
use s3nitor.Sandbox.Http.{Client, decode_json, auth, get, post, terminal, signature_names}

pub record Created : Type 0 where
  pub task_id : ℤ
  pub task_ids : List ℤ

pub record Report : Type 0 where
  pub info_score : Float64
  pub category : String
  pub malscore : Float64
  pub signatures : List (String × ℤ)

pub record Json : Type 0 where
  pub created : List ℕ → Try Created
  pub task_status : List ℕ → Try String
  pub report : List ℕ → Try Report

-- A missing id is 0; a list of ids counts where the single one is missing.
unfoldable pub task_of : Created → ℤ
task_of r =
    if eqb_ℤ r.task_id (pos 0)
    then (elim r.task_ids [ [] ↦ r.task_id | id ∷ ids ↦ id ])
    else r.task_id

unfoldable pub score_of : Floats → Report → Float64
unfolding gt
score_of fl r =
    if fl.eq r.info_score fl.zero && gt fl r.malscore fl.zero then r.malscore else r.info_score

unfoldable pub detail_of : Report → Detail
unfolding signature_names
detail_of r =
    ("signatures", texts (signature_names r.signatures))
    ∷ ("signature_count", int (pos (length r.signatures)))
    ∷ ("category", text r.category)
    ∷ []

module _ (c : Client) (json : Json) (fl : Floats) (token : String) where
  unfoldable pub submitted : ℤ → Try String
  submitted id =
      if eqb_ℤ id (pos 0) then err (failure "cuckoo: no task id in response") else ok (c.printed id)

  unfoldable pub submit : String → String → List ℕ → Try String
  unfolding auth post decode_json task_of submitted
  submit base key file = do
    form ← c.form "file" key file
    out ←
        decode_json c json.created
          (c.send (post (auth "Bearer " token) base "/tasks/create/file" form))
    submitted (task_of out)

  unfoldable pub status : String → String → Try (String × Bool)
  unfolding auth get decode_json terminal
  status base task = do
    state ←
        decode_json c json.task_status
          (c.send (get (auth "Bearer " token) base (str_append "/tasks/view/" task)))
    ok (state, any (str_eq state) terminal)

  unfoldable pub report : String → String → Try (Float64 × Detail)
  unfolding auth get decode_json score_of detail_of
  report base task = do
    r ←
        decode_json c json.report
          (c.send (get (auth "Bearer " token) base (str_append "/tasks/report/" task)))
    ok (score_of fl r, detail_of r)

  unfoldable pub cuckoo : Backend
  unfolding submit status report
  cuckoo = record { name = "cuckoo"; submit = submit; status = status; report = report }
