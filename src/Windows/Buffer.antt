-- ===== src/Windows/Buffer.antt =====
-- src/windows/WindowsBackend.cc: the loop of `processEvents` over the notifications in the buffer that
-- `ReadDirectoryChangesW` fills. A read outside the buffer is a fault. The fields of a record are
-- little-endian words of 32 bits: the offset of the next record, the action, the length of the name.
use native_watcher.Base.{
  ℕ, zero, suc, ◌+◌, ◌-◌, ◌*◌, ◌%◌, ◌≤◌, ◌<◌, ◌≡◌, refl, Bool, true, false, not, ◌||◌, Option, none,
  some, [], ◌∷◌, arith, Bytes, ltb, leb, ◌==◌, if◌then◌else◌, length, get_elem?, Bool-cases, inl,
  inr,
}
use native_watcher.Windows.{
  Action, added, removed, modified, renamed_old_name, renamed_new_name, other,
}

unfoldable pub read_bytes : Bytes → ℕ → ℕ → Option Bytes
read_bytes buffer i zero = some []
read_bytes buffer i (suc n) =
    let rest = read_bytes buffer (i + 1) n in
    elim (get_elem? buffer i) [
      | none ↦ none
      | some b ↦ elim rest [ none ↦ none | some bs ↦ some (b ∷ bs) ]
    ]

abbrev word_of : Option Bytes → Option ℕ
word_of (some (a ∷ b ∷ c ∷ d ∷ [])) = some (a + 256 * b + 65536 * c + 16777216 * d)
word_of o = none

unfoldable pub read_word : Bytes → ℕ → Option ℕ
unfolding read_bytes
read_word buffer i = word_of (read_bytes buffer i 4)

unfoldable pub action_of : ℕ → Action
action_of n =
    if n == 1
    then added
    else if n == 2
    then removed
    else if n == 3
    then modified
    else if n == 4
    then renamed_old_name
    else if n == 5
    then renamed_new_name
    else other

-- What the loop does with a buffer, one notification after the other.
pub data Batch : Type 0 where
  ends : Batch
  overflows : Batch
  faults : Batch
  exhausted : Batch
  notifies : Action → Bytes → Batch → Batch

-- `offsetof(FILE_NOTIFY_INFORMATION, FileName)`
abbrev pub name_offset : ℕ
name_offset = 12

module _ (buffer : Bytes) (end : ℕ) where
  abbrev next_record : ℕ → ℕ → ℕ → Batch → Batch
  next_record next size remaining rest =
      if next == 0 then ends else if ltb next size || leb remaining next then overflows else rest

  abbrev named : Action → Option Bytes → Batch → Batch
  named action none rest = faults
  named action (some name) rest = notifies action name rest

  unfoldable pub parse_loop : ℕ → ℕ → Batch
  parse_loop zero base = exhausted
  parse_loop (suc fuel) base =
      let remaining = end - base in
      let size = λ (n : ℕ). name_offset + n in
      if not (ltb base end)
      then ends
      else if ltb remaining name_offset
      then overflows
      else elim (read_word buffer base) [
        | none ↦ faults
        | some next ↦ elim (read_word buffer (base + 4)) [
          | none ↦ faults
          | some action ↦ elim (read_word buffer (base + 8)) [
            | none ↦ faults
            | some n ↦
                if not (n % 2 == 0) || ltb remaining (size n)
                then overflows
                else named (action_of action) (read_bytes buffer (base + name_offset) n)
                    (next_record next (size n) remaining (parse_loop fuel (base + next)))
          ]
        ]
      ]

-- No read was outside the buffer, and the rounds were enough.
unfoldable pub is_sound : Batch → Bool
is_sound ends = true
is_sound overflows = true
is_sound faults = false
is_sound exhausted = false
is_sound (notifies action name rest) = is_sound rest

get_elem?-some : (xs : Bytes) (i : ℕ) → i < length xs → (b : ℕ) × (get_elem? xs i ≡ some b)
get_elem?-some [] i h = absurd (omega arith)
get_elem?-some (x ∷ xs) zero h = (x, refl)
get_elem?-some (x ∷ xs) (suc i) h = get_elem?-some xs i (omega arith)

read_bytes-some :
    (buffer : Bytes) (i n : ℕ)
    → i + n ≤ length buffer
    → (bs : Bytes) × (read_bytes buffer i n ≡ some bs) × (length bs ≡ n)
unfolding read_bytes
read_bytes-some buffer i zero h = ([], refl, refl)
read_bytes-some buffer i (suc n) h =
    let (b, there) = get_elem?-some buffer i (omega arith) in
    let (bs, more, e) = read_bytes-some buffer (i + 1) n (omega arith) in
    (b ∷ bs, rw (read_bytes, there, more) refl, omega arith)

word_of-some : (bs : Bytes) → length bs ≡ 4 → (n : ℕ) × (word_of (some bs) ≡ some n)
word_of-some (a ∷ b ∷ c ∷ d ∷ []) h = (_, refl)
word_of-some [] h = absurd (omega arith)
word_of-some (a ∷ []) h = absurd (omega arith)
word_of-some (a ∷ b ∷ []) h = absurd (omega arith)
word_of-some (a ∷ b ∷ c ∷ []) h = absurd (omega arith)
word_of-some (a ∷ b ∷ c ∷ d ∷ e ∷ rest) h = absurd (omega arith)

read_word-some :
    (buffer : Bytes) (i : ℕ) → i + 4 ≤ length buffer → (n : ℕ) × (read_word buffer i ≡ some n)
unfolding read_word
read_word-some buffer i h =
    let (bs, there, e) = read_bytes-some buffer i 4 h in
    let (n, word) = word_of-some bs e in (n, rw there word)

module _ (buffer : Bytes) (end : ℕ) (fits : end ≤ length buffer) where
  next_record_sound :
      (next size remaining : ℕ) (rest : Batch)
      → (size ≤ next → next < remaining → is_sound rest ≡ true)
      → is_sound (next_record buffer end next size remaining rest) ≡ true
  unfolding is_sound
  next_record_sound next size remaining rest h = elim (Bool-cases (next == 0)) [
    | inl last ↦ rw last refl
    | inr more ↦ elim (Bool-cases (ltb next size || leb remaining next)) [
      | inl bad ↦ rw (more, bad) refl
      | inr good ↦ rw (more, good) (h (ground arith) (ground arith))
    ]
  ]

  -- In a buffer that holds the bytes that the system reports, the loop reads nothing outside it and
  -- ends within a round for each byte.
  pub parse_loop_sound :
      (fuel base : ℕ)
      → base ≤ end
      → end < base + fuel
      → is_sound (parse_loop buffer end fuel base) ≡ true
  unfolding parse_loop is_sound
  parse_loop_sound zero base l h = absurd (omega arith)
  parse_loop_sound (suc fuel) base l h = elim (Bool-cases (ltb base end)) [
    | inr past ↦ rw (parse_loop, past) refl
    | inl more ↦ elim (Bool-cases (ltb (end - base) name_offset)) [
      | inl short ↦ rw (parse_loop, more, short) refl
      | inr room ↦
          let (next, first) = read_word-some buffer base (ground arith) in
          let (action, second) = read_word-some buffer (base + 4) (ground arith) in
          let (n, third) = read_word-some buffer (base + 8) (ground arith) in
          elim (Bool-cases (not (n % 2 == 0) || ltb (end - base) (name_offset + n))) [
            | inl bad ↦ rw (parse_loop, more, room, first, second, third, bad) refl
            | inr good ↦
                let (name, there, e) =
                  read_bytes-some buffer (base + name_offset) n (ground arith) in
                rw (parse_loop, more, room, first, second, third, good, there)
                  (next_record_sound next (name_offset + n) (end - base) _ (λ longer inside.
                    parse_loop_sound fuel (base + next) (omega (arith, inside))
                      (omega (arith, longer))))
          ]
    ]
  ]
