-- ===== src/Logging/Rotation.antt =====
-- Where the log file and its backups are after a rotation by src/logging.c.
use bacnet_event_server.Base.{
  ℕ, zero, suc, ◌≤◌, ◌≡◌, ◌≢◌, refl, sym, ◌∙◌, [], ◌++◌, Bytes, codes, str_eq, str_eq_sound,
  str_eq_refl, ◌==◌, arith, length, length-append, take_enough, append-injective, append-nil,
  Bool-cases, inl, inr,
}
use bacnet_event_server.Base.Decimal.{print_nat, print_nat-injective}
use bacnet_event_server.Logging.Files.{backup_path}

-- The paths of all backups up to `max` fit the buffer.
abbrev pub AreWhole : Bytes → ℕ → Type 0
AreWhole path max = (i : ℕ) → i ≤ max → length (path ++ (codes "." ++ print_nat i)) ≤ 511

module _ (path : Bytes) (max : ℕ) (whole : AreWhole path max) where
  whole_path : length path ≤ 511
  whole_path = omega (arith, length-append path (codes "." ++ print_nat 0), whole 0 (omega arith))

  pub backup_zero : backup_path path 0 ≡ path
  unfolding backup_path
  backup_zero = take_enough 511 path whole_path

  backup_suc :
      (i : ℕ) → suc i ≤ max → backup_path path (suc i) ≡ path ++ (codes "." ++ print_nat (suc i))
  unfolding backup_path
  backup_suc i h =
      ground (arith, take_enough 511 (path ++ (codes "." ++ print_nat (suc i))) (whole (suc i) h))

  path-ne-backup : (s : Bytes) → path ≢ path ++ (codes "." ++ s)
  path-ne-backup s e =
      ground (arith, append-injective path [] (codes "." ++ s) (append-nil path ∙ e))

  backup_path-injective :
      (i j : ℕ) → i ≤ max → j ≤ max → backup_path path i ≡ backup_path path j → i ≡ j
  backup_path-injective zero zero h k e = refl
  backup_path-injective zero (suc j) h k e =
      absurd (path-ne-backup (print_nat (suc j)) (sym backup_zero ∙ e ∙ backup_suc j k))
  backup_path-injective (suc i) zero h k e =
      absurd (path-ne-backup (print_nat (suc i)) (sym backup_zero ∙ sym e ∙ backup_suc i h))
  backup_path-injective (suc i) (suc j) h k e = print_nat-injective (suc i) (suc j) (
      append-injective (codes ".") (print_nat (suc i)) (print_nat (suc j)) (
        append-injective path (codes "." ++ print_nat (suc i)) (codes "." ++ print_nat (suc j))
          (sym (backup_suc i h) ∙ e ∙ backup_suc j k)))

  pub backup-eq :
      (i j : ℕ) → i ≤ max → j ≤ max → str_eq (backup_path path i) (backup_path path j) ≡ (i == j)
  backup-eq i j h k = elim (Bool-cases (i == j)) [
    | inl same ↦
        let e : i ≡ j = ground arith in rw (e, str_eq_refl (backup_path path j)) (ground arith)
    | inr differ ↦ elim (Bool-cases (str_eq (backup_path path i) (backup_path path j))) [
      | inl clash ↦ absurd (
          ground (
            arith,
            differ,
            backup_path-injective i j h k
                (str_eq_sound (backup_path path i) (backup_path path j) clash),
          ))
      | inr apart ↦ apart ∙ sym differ
    ]
  ]
