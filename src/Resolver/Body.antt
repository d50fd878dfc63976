-- ===== src/Resolver/Body.antt =====
-- `read_json_capped` of resolver.py: a body read in chunks up to a limit.
use matrix_federation_scanne.Prelude.{ℕ, Option, none, some, [], ◌++◌, ltb, length, if◌then◌else◌}
use matrix_federation_scanne.Prelude.Text.{Text}
use matrix_federation_scanne.Json.{Json}

abbrev pub max_body_bytes : ℕ
max_body_bytes = 65536

-- The chunks of a body, and how it ends: at its end, with a `ClientError` or a timeout, or with
-- another exception.
pub data Body : Type 0 where
  eof lost broken : Body
  chunk : Text → Body → Body

-- What `json.loads` does: a value, a ValueError, or another exception (a RecursionError).
pub data Loaded : Type 0 where
  value : Json → Loaded
  bad_json : Loaded
  crashed : Loaded

-- An awaited result: a value, a `ClientError` or a timeout, or another exception.
pub data Awaited (A : Type 0) : Type 0 where
  ok : A → Awaited A
  client_error : Awaited A
  raised : Awaited A

module _ (loads : Text → Loaded) where
  -- `json.loads` of the whole buffer.
  abbrev pub parsed : Text → Awaited (Option Json)
  parsed buffer = elim (loads buffer) [
    | value j ↦ ok (some j)
    | bad_json ↦ ok none
    | crashed ↦ raised
  ]

  -- The loop over the chunks, with the buffer so far.
  unfoldable pub read_chunks : Text → Body → Awaited (Option Json)
  read_chunks buffer eof = parsed buffer
  read_chunks buffer lost = client_error
  read_chunks buffer broken = raised
  read_chunks buffer (chunk bytes rest) =
      let more = read_chunks (buffer ++ bytes) rest in
      if ltb max_body_bytes (length (buffer ++ bytes)) then ok none else more

  unfoldable pub read_json_capped : Body → Awaited (Option Json)
  unfolding read_chunks
  read_json_capped body = read_chunks [] body
