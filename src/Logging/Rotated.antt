-- ===== src/Logging/Rotated.antt =====
-- The files after rotate_log_file of src/logging.c, seen as numbered slots.
use bacnet_event_server.Base.{
  ℕ, zero, suc, ◌-◌, ◌≤◌, ◌<◌, ◌≡◌, ◌≢◌, refl, subst, ◌∙◌, Bool, true, false, ◌&&◌, [], Option,
  none, some, Bytes, str_eq, str_eq_apart, if◌then◌else◌, ◌==◌, leb, arith, Option-cases, inl, inr,
}
use bacnet_event_server.Logging.Files.{
  Files, write_file, rename, unlink, open_append, or_empty, backup_path, rotate_loop, rotate_files,
}
use bacnet_event_server.Logging.Rotation.{AreWhole, backup-eq, backup_zero}

-- The first of two contents that is there.
unfoldable pub or_else : Option Bytes → Option Bytes → Option Bytes
or_else none b = b
or_else (some a) b = some a

-- Slot 0 is the log file, slot i its backup number i.
abbrev pub Slots : Type 0
Slots = ℕ → Option Bytes

-- Every slot up to `n` takes the content of the one before it; only the last one may keep its own.
unfoldable pub shift : ℕ → Slots → Slots
unfolding or_else
shift n slots j =
    if leb j n
    then if j == 0
      then if n == 0 then slots 0 else none
      else or_else (slots (j - 1)) (if j == n then slots n else none)
    else slots j

unfoldable moved : ℕ → Slots → Slots
unfolding or_else
moved n slots j =
    if j == n then none else if j == suc n then or_else (slots n) (slots (suc n)) else slots j

or_else-none : (a : Option Bytes) → or_else a none ≡ a
unfolding or_else
or_else-none none = refl
or_else-none (some a) = refl

shift-moved : (n : ℕ) (slots : Slots) (j : ℕ) → shift n (moved n slots) j ≡ shift (suc n) slots j
unfolding shift moved or_else
shift-moved n slots j = ground (arith, or_else-none (slots (j - 1)), or_else-none (slots n))

module _ (path : Bytes) (bound : ℕ) (whole : AreWhole path bound) where
  rename-moved :
      (files : Files) (slots : Slots) (n j : ℕ)
      → suc n ≤ bound
      → j ≤ bound
      → ((i : ℕ) → i ≤ bound → files (backup_path path i) ≡ slots i)
      → rename files (backup_path path n) (backup_path path (suc n)) (backup_path path j)
        ≡ moved n slots j
  unfolding rename write_file moved or_else
  rename-moved files slots n j h k same =
      let self = backup-eq path bound whole n (suc n) (omega arith) h in
      let target = backup-eq path bound whole (suc n) j h k in
      let source = backup-eq path bound whole n j (omega arith) k in
      let before = same n (omega arith) in
      let here = same j k in
      elim (Option-cases (slots n)) [
        | inl gone ↦ ground (arith, self, target, source, before, here, gone)
        | inr (content, there) ↦ ground (arith, self, target, source, before, here, there)
      ]

  rotate_loop-shift :
      (n : ℕ) (files : Files) (slots : Slots) (j : ℕ)
      → n ≤ bound
      → j ≤ bound
      → ((i : ℕ) → i ≤ bound → files (backup_path path i) ≡ slots i)
      → rotate_loop path n files (backup_path path j) ≡ shift n slots j
  unfolding rotate_loop shift or_else
  rotate_loop-shift zero files slots j h k same = same j k ∙ ground arith
  rotate_loop-shift (suc n) files slots j h k same =
      rotate_loop-shift n (rename files (backup_path path n) (backup_path path (suc n)))
        (moved n slots) j (omega arith) k (λ i b. rename-moved files slots n i h b same)
      ∙ shift-moved n slots j

-- What a rotation with at least one backup leaves in a slot.
unfoldable pub rotated_slot : Bool → ℕ → Slots → Slots
unfolding or_else
rotated_slot opened max slots j =
    if j == 0
    then if opened then some [] else none
    else if j == suc max
    then none
    else or_else (slots (j - 1)) (if j == max then slots max else none)

unlink_last :
    (path : Bytes) (max : ℕ) (files : Files)
    → AreWhole path (suc max)
    → (j : ℕ) → j ≤ suc max
    → unlink (rotate_loop path max files) (backup_path path (suc max)) (backup_path path j)
      ≡ (if suc max == j then none else shift max (λ i. files (backup_path path i)) j)
unfolding unlink write_file
unlink_last path max files whole j k =
    let last = backup-eq path (suc max) whole (suc max) j (omega arith) k in
    let here =
      rotate_loop-shift path (suc max) whole max files (λ i. files (backup_path path i)) j
        (omega arith) k (λ i b. refl) in
    ground (arith, last, here)

rotate_files-at :
    (path : Bytes) (max : ℕ) (files : Files) (opened : Bool) (other : Bytes)
    → rotate_files opened path max files other ≡ (
        if str_eq path other && opened
        then or_empty (unlink (rotate_loop path max files) (backup_path path (suc max)) path)
        else unlink (rotate_loop path max files) (backup_path path (suc max)) other)
unfolding rotate_files open_append write_file
rotate_files-at path max files true other = ground arith
rotate_files-at path max files false other = ground arith

gone_apart :
    (path : Bytes) (max : ℕ) (files : Files) (other : Bytes)
    → str_eq (backup_path path (suc max)) other ≡ false
    → unlink (rotate_loop path max files) (backup_path path (suc max)) other
      ≡ rotate_loop path max files other
unfolding unlink write_file
gone_apart path max files other e = rw e refl

slots_agree :
    (opened : Bool) (max : ℕ) (slots : Slots) (j : ℕ)
    → 0 < max
    → j ≤ suc max
    → (if (0 == j) && opened
        then or_empty (if suc max == 0 then none else shift max slots 0)
        else if suc max == j
        then none
        else shift max slots j)
      ≡ rotated_slot opened max slots j
unfolding shift rotated_slot or_else
slots_agree opened max slots j h k = ground arith

-- With the log path and the paths of the backups up to `max + 1` whole, and at least one backup kept, each of them holds after the rotation what its slot says: the log file is new and empty if it could be opened and is gone if not, backup `max + 1` is gone, every backup up to `max` holds what the file before it held, and only backup `max` keeps its content where there was none before it.
pub rotate_files-slots :
    (path : Bytes) (max : ℕ) (files : Files) (opened : Bool) (j : ℕ)
    → AreWhole path (suc max)
    → 0 < max
    → j ≤ suc max
    → rotate_files opened path max files (backup_path path j)
      ≡ rotated_slot opened max (λ i. files (backup_path path i)) j
rotate_files-slots path max files opened j whole some_kept k =
    let log = backup_zero path (suc max) whole in
    let is_log =
      subst (λ p. str_eq p (backup_path path j) ≡ (0 == j)) log
        (backup-eq path (suc max) whole 0 j (omega arith) k) in
    let log_slot =
      subst
        (λ p.
          unlink (rotate_loop path max files) (backup_path path (suc max)) p
          ≡ (if suc max == 0 then none else shift max (λ i. files (backup_path path i)) 0))
        log (unlink_last path max files whole 0 (omega arith)) in
    let here = unlink_last path max files whole j k in
    rotate_files-at path max files opened (backup_path path j)
    ∙ rw (is_log, log_slot, here)
        (slots_agree opened max (λ i. files (backup_path path i)) j some_kept k)

rotate_loop-other :
    (path : Bytes) (n : ℕ) (files : Files) (other : Bytes)
    → ((i : ℕ) → i ≤ n → backup_path path i ≢ other)
    → rotate_loop path n files other ≡ files other
unfolding rotate_loop rename write_file
rotate_loop-other path zero files other h = refl
rotate_loop-other path (suc n) files other h =
    let new_apart = str_eq_apart (backup_path path (suc n)) other (h (suc n) (omega arith)) in
    let old_apart = str_eq_apart (backup_path path n) other (h n (omega arith)) in
    rotate_loop-other path n (rename files (backup_path path n) (backup_path path (suc n))) other
      (λ i b. h i (omega arith))
    ∙ ground (arith, new_apart, old_apart)

-- A path that is neither the log file nor a backup up to `max + 1`, whose paths are whole, keeps its content over a rotation.
pub rotate_files-other :
    (path : Bytes) (max : ℕ) (files : Files) (opened : Bool) (other : Bytes)
    → AreWhole path (suc max)
    → ((i : ℕ) → i ≤ suc max → backup_path path i ≢ other)
    → rotate_files opened path max files other ≡ files other
rotate_files-other path max files opened other whole h =
    let last = str_eq_apart (backup_path path (suc max)) other (h (suc max) (omega arith)) in
    let log =
      subst (λ p. str_eq p other ≡ false) (backup_zero path (suc max) whole)
        (str_eq_apart (backup_path path 0) other (h 0 (omega arith))) in
    let kept = rotate_loop-other path max files other (λ i b. h i (omega arith)) in
    rotate_files-at path max files opened other
    ∙ rw log (gone_apart path max files other last ∙ kept)
