-- ===== src/Base/Buffer.antt =====
-- Text that is printed in pieces with `offset += snprintf(buffer + offset, size - offset, …)`.
use Prim.Native.Nat.{ℕ, zero, suc, ◌+◌, ◌-◌, ◌≤◌}
use mathlib.Core.Path.{◌≡◌, refl, sym, ap, ◌∙◌}
use mathlib.Core.Logic.{inl, inr}
use mathlib.Core.Bool.{true}
use mathlib.Core.List.{List, [], ◌∷◌, ◌++◌, append-nil, append_assoc}
use mathlib.Core.Option.{Option, none, some}
use native.Mathlib.Omega.{arith}
use bacnet_event_server.Base.Tests.{leb, if◌then◌else◌, Bool-cases}
use bacnet_event_server.Base.Lists.{length, length-append, take}
use bacnet_event_server.Base.Text.{Bytes, copy_string}
use bacnet_event_server.Base.Scan.{◌>>=◌}

-- What the buffer holds, and the offset of the next snprintf.
pub record Cursor : Type 0 where
  pub buffer : Bytes
  pub offset : ℕ

abbrev pub start : Cursor
start = record { buffer = []; offset = 0 }

-- snprintf at the offset with the room that is left; past the buffer it would write outside.
unfoldable pub print_at : ℕ → Bytes → Cursor → Option Cursor
print_at size piece c =
    if leb c.offset size
    then some (record {
      buffer = c.buffer ++ copy_string (size - c.offset) piece;
      offset = c.offset + length piece;
    })
    else none

unfoldable pub print_pieces : ℕ → List Bytes → Cursor → Option Cursor
unfolding print_at
print_pieces size [] c = some c
print_pieces size (piece ∷ pieces) c = do
  next ← print_at size piece c
  print_pieces size pieces next

abbrev pub concat : List Bytes → Bytes
concat [] = []
concat (piece ∷ pieces) = piece ++ concat pieces

take-append : (n : ℕ) (s t : Bytes) → take n (s ++ t) ≡ take n s ++ take (n - length s) t
take-append zero s t = ground arith
take-append (suc n) [] t = ground arith
take-append (suc n) (c ∷ s) t = ground (arith, take-append n s t)

-- The cursor after the text `t`.
unfoldable pub cursor_at : ℕ → Bytes → Cursor
cursor_at size t = record { buffer = copy_string size t; offset = length t }

pub print-cursor :
    (size : ℕ) (piece t : Bytes)
    → print_at size piece (cursor_at size t)
      ≡ (if leb (length t) size then some (cursor_at size (t ++ piece)) else none)
unfolding print_at cursor_at
print-cursor size piece t =
    let both = take-append (size - 1) t piece in
    let all = length-append t piece in
    elim (Bool-cases (leb (length t) size)) [
      | inl fits ↦
          let room : size - length t - 1 ≡ size - 1 - length t = omega arith in
          rw (fits, room, all, both) refl
      | inr over ↦ rw over refl
    ]

-- If the text stays in the buffer, so does every piece.
pub print_pieces_lem :
    (size : ℕ) (pieces : List Bytes) (t : Bytes)
    → length t + length (concat pieces) ≤ size
    → print_pieces size pieces (cursor_at size t) ≡ some (cursor_at size (t ++ concat pieces))
unfolding print_pieces
print_pieces_lem size [] t h = ap (λ r. some (cursor_at size r)) (sym (append-nil t))
print_pieces_lem size (piece ∷ pieces) t h =
    let all = length-append t piece in
    let rest = length-append piece (concat pieces) in
    let fits : leb (length t) size ≡ true = ground arith in
    rw (print-cursor size piece t) (
      rw fits (
        print_pieces_lem size pieces (t ++ piece) (omega arith)
        ∙ ap (λ r. some (cursor_at size r)) (append_assoc t piece (concat pieces))))
