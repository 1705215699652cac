-- ===== src/Sandbox/Cape.antt =====
-- internal/sandbox/cape.go: the backend of CAPE, whose answers carry an envelope.
use s3nitor.Prelude.{
  ℕ, String, str_append, str_eq, Bool, ◌&&◌, List, [], ◌∷◌, any, length, if◌then◌else◌,
}
use s3nitor.Prelude.Int.{ℤ, pos}
use s3nitor.Scanner.{Float64, Detail, int, text, texts, failure, wrapped}
use s3nitor.Fallible.{Try, ok, err, ◌>>=◌, ◌>>◌, wrap_error}
use s3nitor.Sandbox.{Backend, Floats, gt}
use s3nitor.Sandbox.Http.{Client, decode_json, auth, get, post, terminal, signature_names}

pub record Envelope : Type 0 where
  pub error : Bool
  pub message : String
  pub contents : List ℕ

pub record Report : Type 0 where
  pub malscore : Float64
  pub info_score : Float64
  pub category : String
  pub families : List String
  pub signatures : List (String × ℤ)

-- What json.Unmarshal makes of an answer, or of the contents of an envelope.
pub record Json : Type 0 where
  pub envelope : List ℕ → Try Envelope
  pub task_ids : List ℕ → Try (List ℤ)
  pub state : List ℕ → Try String
  pub report : List ℕ → Try Report

unfoldable check : Envelope → Try (Unit {0})
check e =
    if e.error
    then err
        (failure (str_append "cape: " (if str_eq e.message "" then "unspecified" else e.message)))
    else ok tt

-- The families that are named.
unfoldable pub named : List String → List String
named [] = []
named (f ∷ fs) = let rest = named fs in if str_eq f "" then rest else f ∷ rest

unfoldable pub score_of : Floats → Report → Float64
unfolding gt
score_of fl r =
    if fl.eq r.malscore fl.zero && gt fl r.info_score fl.zero then r.info_score else r.malscore

unfoldable pub detail_of : Report → Detail
unfolding signature_names named
detail_of r =
    ("signatures", texts (signature_names r.signatures))
    ∷ ("signature_count", int (pos (length r.signatures)))
    ∷ ("families", texts (named r.families))
    ∷ ("category", text r.category)
    ∷ []

module _ (c : Client) (json : Json) (fl : Floats) (token : String) where
  unfoldable pub submitted : List ℤ → Try String
  submitted [] = err (failure "cape: no task id in response")
  submitted (id ∷ ids) = ok (c.printed id)

  unfoldable pub submit : String → String → List ℕ → Try String
  unfolding auth post decode_json check submitted
  submit base key file = do
    form ← c.form "file" key file
    e ←
        decode_json c json.envelope
          (c.send (post (auth "Token " token) base "/apiv2/tasks/create/file/" form))
    check e
    ids ← wrap_error (wrapped "cape: decoding submit data: ") (json.task_ids e.contents)
    submitted ids

  unfoldable pub status : String → String → Try (String × Bool)
  unfolding auth get decode_json check terminal
  status base task = do
    e ← decode_json c json.envelope (
        c.send (
          get (auth "Token " token) base (str_append "/apiv2/tasks/status/" (str_append task "/"))))
    check e
    state ← wrap_error (wrapped "cape: decoding status: ") (json.state e.contents)
    ok (state, any (str_eq state) terminal)

  unfoldable pub report : String → String → Try (Float64 × Detail)
  unfolding auth get decode_json score_of detail_of
  report base task = do
    r ← decode_json c json.report (
        c.send (
          get (auth "Token " token) base
            (str_append "/apiv2/tasks/get/report/" (str_append task "/json/"))))
    ok (score_of fl r, detail_of r)

  unfoldable pub cape : Backend
  unfolding submit status report
  cape = record { name = "cape"; submit = submit; status = status; report = report }
