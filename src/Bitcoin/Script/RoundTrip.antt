-- ===== src/Bitcoin/Script/RoundTrip.antt =====
-- What a script writes it reads back.
use node_dlc.Prelude.{
  ℕ, zero, suc, ◌^◌, ◌≤◌, ◌<◌, ◌≡◌, ◌⊎◌, inl, inr, refl, ap, arith, true, false, ◌&&◌, some, List,
  [], ◌∷◌, ◌++◌, length, All, length-append, leb, ◌==◌, if◌then◌else◌, Bool-cases, value, and_then,
  result, lift, ◌>>=◌, pure, length-drop,
}
use node_dlc.Bufio.Bytes.{be_bytes, le_bytes, length-be_bytes}
use node_dlc.Bufio.Reader.{Read, reader, eof, read_u8, read_u16_le, read_bytes}
use node_dlc.Bufio.Reader.Reads.{
  Reads, ReadsEnd, Reads-bind, Reads-bind_end, ReadsEnd-map, Reads-pure, Reads-bytes, Reads-result,
  ahead_fits,
}
use node_dlc.Bufio.Reader.Numbers.{Reads-map, Reads-append_nil, Reads-u8, Reads-u16_le}
use node_dlc.Bufio.Writer.Appends.{each_bytes}
use node_dlc.Bufio.Writer.Numbers.{var_int}
use node_dlc.Bitcoin.Stream.{
  Takes, Takes-bind, Takes-bytes, Takes-var_int, Takes-append_nil, Takes-lift, stream_bytes,
}
use node_dlc.Bitcoin.Script.{
  ScriptCmd, op_code, push_data, data_from, cmd_from, read_cmd, read_cmds, parse_cmds,
  serialize_cmd, serialize_cmds, encode_var_int, serialize_script, parse_script,
}

-- A byte that stands for itself, or data of a length that can be pushed.
abbrev pub IsCmd : ScriptCmd → Type 0
IsCmd (op_code op) = (op < 256) × ((op ≡ 0) ⊎ (0x4e ≤ op))
IsCmd (push_data d) = (1 ≤ length d) × (length d ≤ 520)

-- The bytes of a command, with the shortest length that fits.
unfoldable pub cmd_bytes : ScriptCmd → List ℕ
cmd_bytes (op_code op) = be_bytes 1 op
cmd_bytes (push_data d) =
    if leb (length d) 75
    then be_bytes 1 (length d) ++ d
    else if leb (length d) 255
    then be_bytes 1 0x4c ++ (be_bytes 1 (length d) ++ d)
    else be_bytes 1 0x4d ++ (le_bytes 2 (length d) ++ d)

pub serialize_cmd-bytes : (c : ScriptCmd) → IsCmd c → serialize_cmd c ≡ value (cmd_bytes c)
unfolding serialize_cmd cmd_bytes
serialize_cmd-bytes (op_code op) h = refl
serialize_cmd-bytes (push_data d) (h, k) = ground arith

pub serialize_cmds-bytes :
    (cs : List ScriptCmd) → All IsCmd cs → serialize_cmds cs ≡ value (each_bytes cmd_bytes cs)
unfolding serialize_cmds
serialize_cmds-bytes [] h = refl
serialize_cmds-bytes (c ∷ cs) (h, hs) =
    rw (serialize_cmd-bytes c h, serialize_cmds-bytes cs hs) refl

Reads-data_from :
    (m : Read ℕ) (bs d : List ℕ)
    → Reads m bs (length d)
    → Reads (data_from m) (bs ++ d) (push_data d)
unfolding data_from
Reads-data_from m bs d p =
    Reads-bind (λ n. read_bytes (some n) >>= λ bytes. pure (push_data bytes)) p
      (Reads-map push_data (Reads-bytes d))

-- A number that stands for itself.
IsPlain : ℕ → Type 0
IsPlain op =
    ((leb 0x01 op && leb op 0x4b) ≡ false) × ((op == 0x4c) ≡ false) × ((op == 0x4d) ≡ false)

op-IsPlain : (op : ℕ) → (op ≡ 0) ⊎ (0x4e ≤ op) → IsPlain op
unfolding IsPlain
op-IsPlain op (inl h) = rw h (refl, refl, refl)
op-IsPlain op (inr h) = (ground arith, ground arith, ground arith)

cmd_from-small : (n : ℕ) → 1 ≤ n → leb n 75 ≡ true → cmd_from n ≡ data_from (pure n)
unfolding cmd_from
cmd_from-small n h k = let small : (leb 0x01 n && leb n 0x4b) ≡ true = ground arith in rw small refl

Reads-cmd : (c : ScriptCmd) → IsCmd c → Reads read_cmd (cmd_bytes c) c
unfolding read_cmd cmd_from cmd_bytes IsPlain
Reads-cmd (op_code op) (h, k) =
    let (a, b, c) = op-IsPlain op k in
    Reads-append_nil (Reads-bind cmd_from (Reads-u8 op h) (rw (a, b, c) (Reads-pure (op_code op))))
Reads-cmd (push_data d) (h, k) =
    let n = length d in
    elim (Bool-cases (leb n 75)) [
      | inl a ↦ rw a (
          Reads-bind cmd_from (Reads-u8 n (ground arith))
            (rw (cmd_from-small n h a) (Reads-data_from (pure n) [] d (Reads-pure n))))
      | inr a ↦ rw a (elim (Bool-cases (leb n 255)) [
        | inl b ↦ rw b (
            Reads-bind cmd_from (Reads-u8 0x4c (omega arith))
              (Reads-data_from read_u8 (be_bytes 1 n) d (Reads-u8 n (ground arith))))
        | inr b ↦ rw b (
            Reads-bind cmd_from (Reads-u8 0x4d (omega arith))
              (Reads-data_from read_u16_le (le_bytes 2 n) d (Reads-u16_le n (omega arith))))
      ])
    ]

-- There is at least one byte.
cmd_bytes_pos : (c : ScriptCmd) → IsCmd c → 1 ≤ length (cmd_bytes c)
unfolding cmd_bytes
cmd_bytes_pos (op_code op) h = omega (arith, length-be_bytes 1 op)
cmd_bytes_pos (push_data d) (h, k) =
    let n = length d in
    elim (Bool-cases (leb n 75)) [
      | inl a ↦ rw a (omega (arith, length-append (be_bytes 1 n) d, length-be_bytes 1 n))
      | inr a ↦ rw a (elim (Bool-cases (leb n 255)) [
        | inl b ↦ rw b (
            omega
              (arith, length-append (be_bytes 1 0x4c) (be_bytes 1 n ++ d), length-be_bytes 1 0x4c))
        | inr b ↦ rw b (
            omega
              (arith, length-append (be_bytes 1 0x4d) (le_bytes 2 n ++ d), length-be_bytes 1 0x4d))
      ])
    ]

abbrev pub script_bytes : List ScriptCmd → List ℕ
script_bytes = each_bytes cmd_bytes

length-script_bytes_ge : (cs : List ScriptCmd) → All IsCmd cs → length cs ≤ length (script_bytes cs)
length-script_bytes_ge [] h = omega arith
length-script_bytes_ge (c ∷ cs) (h, hs) = omega (
  arith,
  length-append (cmd_bytes c) (script_bytes cs),
  cmd_bytes_pos c h,
  length-script_bytes_ge cs hs,
)

-- With a round for each command and one more, the loop comes to the end.
ReadsEnd-cmds :
    (cs : List ScriptCmd) (fuel : ℕ)
    → All IsCmd cs
    → length cs < fuel
    → ReadsEnd (read_cmds fuel) (script_bytes cs) cs
unfolding read_cmds eof
ReadsEnd-cmds cs zero h k = absurd (omega arith)
ReadsEnd-cmds [] (suc fuel) h k = record {
  run = λ r inside e.
      let done : (r.position == length r.buffer) ≡ true =
        ground (arith, ap length e, length-drop r.position r.buffer) in
      (r, rw done refl, record { same = refl; moved = omega arith; inside = inside });
}
ReadsEnd-cmds (c ∷ cs) (suc fuel) (h, hs) k = record {
  run = λ r inside e.
      let fits = ahead_fits r (cmd_bytes c) (script_bytes cs) inside e in
      let more : (r.position == length r.buffer) ≡ false =
        ground (arith, fits, cmd_bytes_pos c h) in
      let step =
        Reads-bind_end (λ c. read_cmds fuel >>= λ cs. pure (c ∷ cs)) (Reads-cmd c h)
          (ReadsEnd-map (λ t. c ∷ t) (ReadsEnd-cmds cs fuel hs (omega arith))) in
      let (r', e', x) = step.run r inside e in (r', rw more e', x);
}

pub parse_cmds-bytes :
    (cs : List ScriptCmd) → All IsCmd cs → parse_cmds (script_bytes cs) ≡ value cs
unfolding parse_cmds
parse_cmds-bytes cs h = Reads-result (
    ReadsEnd-cmds cs (suc (length (script_bytes cs))) h
      (omega (arith, length-script_bytes_ge cs h)))

pub encode_var_int-var_int : (i : ℕ) → i < 2 ^ 64 → encode_var_int i ≡ value (var_int i)
unfolding encode_var_int var_int
encode_var_int-var_int i h = ground arith

abbrev pub IsScript : List ScriptCmd → Type 0
IsScript cs = All IsCmd cs × (length (script_bytes cs) < 2 ^ 64)

abbrev pub framed_script : List ScriptCmd → List ℕ
framed_script cs = var_int (length (script_bytes cs)) ++ script_bytes cs

pub serialize_script-framed :
    (cs : List ScriptCmd) → IsScript cs → serialize_script cs ≡ value (framed_script cs)
unfolding serialize_script
serialize_script-framed cs (h, k) =
    rw (serialize_cmds-bytes cs h) (rw (encode_var_int-var_int _ k) refl)

pub Takes-script : (cs : List ScriptCmd) → IsScript cs → Takes parse_script (framed_script cs) cs
unfolding parse_script
Takes-script cs (h, k) =
    let buf = script_bytes cs in
    Takes-bind (λ len. stream_bytes len >>= λ buf. lift (parse_cmds buf)) (Takes-var_int _ k)
      (Takes-append_nil (
        Takes-bind (λ buf. lift (parse_cmds buf)) (Takes-bytes (length buf) buf refl)
          (Takes-lift (parse_cmds-bytes cs h))))

-- Of every script of opcodes other than pushes and data of 1 to 520 bytes, parseCmds returns it
-- from what serializeCmds wrote, and so does its loop when it is given no more rounds than there
-- are commands and one.
pub parse_cmds-serialize_cmds :
    (cs : List ScriptCmd)
    → All IsCmd cs
    → (and_then (serialize_cmds cs) parse_cmds ≡ value cs)
      × (and_then (serialize_cmds cs) (λ buf. result (read_cmds (suc (length cs)) (reader buf)))
          ≡ value cs)
parse_cmds-serialize_cmds cs h = (
  rw (serialize_cmds-bytes cs h) (parse_cmds-bytes cs h),
  rw (serialize_cmds-bytes cs h)
      (Reads-result (ReadsEnd-cmds cs (suc (length cs)) h (omega arith))),
)
