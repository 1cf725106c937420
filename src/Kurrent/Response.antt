-- ===== src/Kurrent/Response.antt =====
-- curl_write_callback of src/kurrentdb_client.c: how the body of an answer is collected.
use bacnet_event_server.Base.{
  ℕ, ◌+◌, ◌*◌, ◌%◌, ◌^◌, ◌<◌, ◌≡◌, refl, sym, ◌∙◌, Bool, true, false, ◌||◌, List, [], ◌∷◌, ◌++◌,
  append-nil, append_assoc, Bytes, if◌then◌else◌, ◌==◌, arith, length, length-append, take,
  take_enough, Bool-cases, inl, inr,
}

-- curl_response_t: the bytes at `data`, without the terminator that is written behind them, and `size`.
pub record Response : Type 0 where
  pub bytes : Bytes
  pub size : ℕ

abbrev pub no_response : Response
no_response = record { bytes = []; size = 0 }

-- curl_write_callback; `allocated` is whether realloc succeeds. The result is the return value.
unfoldable pub curl_write_callback : Bool → Bytes → (size nmemb : ℕ) → Response → Response × ℕ
curl_write_callback allocated contents size nmemb r =
    let realsize = (size * nmemb) % 2 ^ 64 in
    if allocated
    then (
      record { bytes = r.bytes ++ take realsize contents; size = (r.size + realsize) % 2 ^ 64 },
      realsize,
    )
    else (r, 0)

-- A part of the body, and whether there is room for it.
pub record Chunk : Type 0 where
  pub allocated : Bool
  pub contents : Bytes

-- libcurl hands over the parts with a `size` of 1, until the callback returns another number than that of the
-- bytes; the second component tells whether all were taken.
unfoldable pub collect : List Chunk → Response → Response × Bool
unfolding curl_write_callback
collect [] r = (r, true)
collect (c ∷ chunks) r =
    let (next, taken) = curl_write_callback c.allocated c.contents 1 (length c.contents) r in
    let rest = collect chunks next in if taken == length c.contents then rest else (next, false)

-- The parts joined.
abbrev pub joined : List Chunk → Bytes
joined [] = []
joined (c ∷ chunks) = c.contents ++ joined chunks

-- The parts before the first one that is not empty and finds no room.
unfoldable pub with_room : List Chunk → List Chunk
with_room [] = []
with_room (c ∷ chunks) =
    let rest = c ∷ with_room chunks in if c.allocated || length c.contents == 0 then rest else []

abbrev extended : Bytes → Response → Response
extended contents r = record { bytes = r.bytes ++ contents; size = r.size + length contents }

write_room :
    (allocated : Bool) (contents : Bytes) (r : Response)
    → r.size + length contents < 2 ^ 64
    → (allocated || length contents == 0) ≡ true
    → curl_write_callback allocated contents 1 (length contents) r
      ≡ (extended contents r, length contents)
unfolding curl_write_callback
write_room true contents r bound room =
    let real : (1 * length contents) % 2 ^ 64 ≡ length contents = omega arith in
    let counted : (r.size + length contents) % 2 ^ 64 ≡ r.size + length contents = omega arith in
    let taken = take_enough (length contents) contents (omega arith) in
    simp (real, counted, taken) refl
write_room false [] r bound room =
    let same = append-nil r.bytes in
    let counted : r.size + 0 ≡ r.size = omega arith in simp (same, counted) refl
write_room false (x ∷ contents) r bound room = absurd (ground (arith, room))

write_no_room :
    (allocated : Bool) (contents : Bytes) (r : Response)
    → (allocated || length contents == 0) ≡ false
    → (curl_write_callback allocated contents 1 (length contents) r ≡ (r, 0))
      × ((0 == length contents) ≡ false)
unfolding curl_write_callback
write_no_room true contents r room = absurd (ground (arith, room))
write_no_room false contents r room = (refl, ground (arith, room))

-- The number of bytes is the counter, and the bytes are those that were there and the parts that found room, as
-- long as all parts together have fewer than 2 ^ 64 bytes. All parts are taken exactly if all find room.
pub collect-joined :
    (chunks : List Chunk) (r : Response)
    → r.size ≡ length r.bytes
    → length r.bytes + length (joined chunks) < 2 ^ 64
    → let (after, whole) = collect chunks r in
      (after.bytes ≡ r.bytes ++ joined (with_room chunks))
      × (after.size ≡ length after.bytes)
      × (whole ≡ (length (with_room chunks) == length chunks))
unfolding collect with_room
collect-joined [] r counted bound = (sym (append-nil r.bytes), counted, refl)
collect-joined (c ∷ chunks) r counted bound =
    elim (Bool-cases (c.allocated || length c.contents == 0)) [
      | inl room ↦
          let all = length-append c.contents (joined chunks) in
          let grown = length-append r.bytes c.contents in
          let step =
            write_room c.allocated c.contents r (omega (arith, all, counted, bound)) room in
          let ih =
            collect-joined chunks (extended c.contents r) (omega (arith, grown, counted))
              (omega (arith, grown, all, bound)) in
          let twice : (length c.contents == length c.contents) ≡ true = ground arith in
          rw (step, room, twice)
            (
              ih.0 ∙ append_assoc r.bytes c.contents (joined (with_room chunks)),
              ih.1,
              ih.2 ∙ ground arith,
            )
      | inr lacks ↦
          let (step, stops) = write_no_room c.allocated c.contents r lacks in
          rw (step, lacks, stops) (sym (append-nil r.bytes), counted, ground arith)
    ]
