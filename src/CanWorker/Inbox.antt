-- ===== src/CanWorker/Inbox.antt =====
-- What app/src/can_worker.cpp puts into the inbox of commands.
use youyeetoo_rk3588_toolkit.Prelude.{
  ℕ, ℤ, ◌≡◌, refl, ap, sym, ◌∙◌, true, false, List, [], ◌∷◌, ◌++◌, some, All, Option-cases,
  Bool-cases, inl, inr, get_or, ltb, ◌==◌, drop, take, ◌-◌,
}
use mathlib.Core.Path.{subst}
use youyeetoo_rk3588_toolkit.Prelude.Text.{Text, text_eq_refl, is_empty}
use youyeetoo_rk3588_toolkit.Prelude.Splitting.{Lacks, Lacks-append, split-append}
use youyeetoo_rk3588_toolkit.FileSystem.{FileSystem, lines, unlines, write_file, append_file}
use youyeetoo_rk3588_toolkit.Can.{
  CommandMap, CanFrame, ParsedCanCommand, find_command, parse_rx_frame, ascii_suffix,
}
use youyeetoo_rk3588_toolkit.Can.Frames.{ascii_suffix-Lacks, add_suffix-Lacks}
use youyeetoo_rk3588_toolkit.Can.Maps.{IsEntry, IsFound, find_command-IsFound}
use youyeetoo_rk3588_toolkit.CanWorker.{
  CanWorker, received, receive, to_frame, inbox_line, append_command_to_inbox,
}
use youyeetoo_rk3588_toolkit.CanWorker.Loop.{receive_all}

lines-unlines : (ls : List Text) → All (Lacks 10) ls → lines (unlines ls) ≡ ls
unfolding lines unlines
lines-unlines [] h = refl
lines-unlines (l ∷ ls) (h, hs) =
    split-append 10 l (unlines ls) h ∙ ap (λ r. l ∷ r) (lines-unlines ls hs)

pub append_assoc : (a b c : Text) → (a ++ b) ++ c ≡ a ++ (b ++ c)
append_assoc [] b c = refl
append_assoc (x ∷ a) b c = ap (λ (t : Text). x ∷ t) (append_assoc a b c)

unlines-append : (ls : List Text) (l : Text) → unlines (ls ++ l ∷ []) ≡ unlines ls ++ (l ++ 10 ∷ [])
unfolding unlines
unlines-append [] l = refl
unlines-append (k ∷ ls) l =
    ap (λ t. k ++ (10 ∷ t)) (unlines-append ls l)
    ∙ sym (append_assoc k (10 ∷ unlines ls) (l ++ 10 ∷ []))

append_twice : (ls : List Text) (l : Text) → (ls ++ l ∷ []) ++ l ∷ [] ≡ ls ++ l ∷ l ∷ []
append_twice [] l = refl
append_twice (k ∷ ls) l = ap (λ ks. k ∷ ks) (append_twice ls l)

-- The command that a worker reads from a frame.
abbrev pub command_of : CanWorker → ℕ → ℕ → List ℕ → ParsedCanCommand
command_of w can_id dlc bytes =
    parse_rx_frame w.command_map (to_frame can_id dlc bytes) w.cfg.rx_command_id

abbrev pub line_of : ParsedCanCommand → Text
line_of cmd = inbox_line cmd.command_name cmd.extra_params

pub inbox_line-Lacks :
    (name params : Text) → Lacks 10 name → Lacks 10 params → Lacks 10 (inbox_line name params)
unfolding inbox_line
inbox_line-Lacks name [] h k = h
inbox_line-Lacks name (c ∷ params) h k = Lacks-append 10 name (b' ' ∷ c ∷ params) h (refl, k)

pub command-Lacks :
    (m : CommandMap) (frame : CanFrame) (id : ℕ)
    → All IsEntry m
    → Lacks 10 (parse_rx_frame m frame id).command_name
      × Lacks 10 (parse_rx_frame m frame id).extra_params
unfolding parse_rx_frame
command-Lacks m frame id h = elim (Bool-cases (frame.can_id == id)) [
  | inr foreign ↦ rw foreign (tt, tt)
  | inl mine ↦ rw mine (elim (Bool-cases (ltb frame.dlc 1)) [
    | inl short ↦ rw short (tt, tt)
    | inr long ↦
        let byte = get_or frame.bytes 0 0 in
        rw long (elim (Option-cases (find_command byte m)) [
          | inl e ↦ rw e (tt, tt)
          | inr (entry, e) ↦
              let tail = take (frame.dlc - 1) (drop 1 frame.bytes) in
              let found : IsFound byte (some entry) =
                subst (IsFound byte) e (find_command-IsFound byte m h) in
              rw e (
                found.2,
                add_suffix-Lacks entry.1 (ascii_suffix tail) found.3 (ascii_suffix-Lacks tail),
              )
        ])
  ])
]

append_line :
    (path name params : Text) (ls : List Text) (fs : FileSystem)
    → fs.writable path ≡ true
    → fs.contents path ≡ some (unlines ls)
    → ((append_command_to_inbox path name params fs).contents path
        ≡ some (unlines (ls ++ inbox_line name params ∷ [])))
      × ((append_command_to_inbox path name params fs).writable ≡ fs.writable)
unfolding append_command_to_inbox append_file write_file
append_line path name params ls fs w e =
    rw (e, append_file)
      (rw (w, text_eq_refl path) (rw (unlines-append ls (inbox_line name params)) (refl, refl)))

-- A command frame that a worker receives puts exactly one line into the inbox, at its end, and no
-- newline that the line could be cut at, if the inbox can be written and holds whole lines, and the
-- entries of the command map are on one line each.
pub receive_appends :
    (fd : ℤ) (can_id dlc : ℕ) (bytes : List ℕ) (w : CanWorker) (fs : FileSystem) (ls : List Text)
    → All IsEntry w.command_map
    → (command_of w can_id dlc bytes).valid ≡ true
    → is_empty w.inbox ≡ false
    → fs.writable w.inbox ≡ true
    → fs.contents w.inbox ≡ some (unlines ls)
    → All (Lacks 10) ls
    → let line = line_of (command_of w can_id dlc bytes) in
      let after = unlines (ls ++ line ∷ []) in
      ((receive fd (received can_id dlc bytes) (w, fs)).1.contents w.inbox ≡ some after)
      × (lines after ≡ ls ++ line ∷ [])
unfolding receive
receive_appends fd can_id dlc bytes w fs ls entries valid filled writable e whole =
    let cmd = command_of w can_id dlc bytes in
    let (name, params) =
      command-Lacks w.command_map (to_frame can_id dlc bytes) w.cfg.rx_command_id entries in
    let line = inbox_line-Lacks cmd.command_name cmd.extra_params name params in
    (
      rw (valid, filled) (append_line w.inbox cmd.command_name cmd.extra_params ls fs writable e).0,
      lines-unlines (ls ++ line_of cmd ∷ []) (All-append (line_of cmd) ls whole line),
    )
  where
    All-append :
        (l : Text) (ls : List Text) → All (Lacks 10) ls → Lacks 10 l → All (Lacks 10) (ls ++ l ∷ [])
    All-append l [] h k = (k, tt)
    All-append l (x ∷ ls) (h, hs) k = (h, All-append l ls hs k)

-- A command frame that arrives on the socket of the primary and on that of the backup interface, as
-- it does where both are one interface, is put into the inbox twice, if the inbox can be written and
-- holds whole lines.
pub received_twice :
    (primary backup : ℤ) (can_id dlc : ℕ) (bytes : List ℕ) (w : CanWorker) (fs : FileSystem)
    (ls : List Text)
    → (command_of w can_id dlc bytes).valid ≡ true
    → is_empty w.inbox ≡ false
    → fs.writable w.inbox ≡ true
    → fs.contents w.inbox ≡ some (unlines ls)
    → let line = line_of (command_of w can_id dlc bytes) in
      let frame = received can_id dlc bytes in
      (receive_all ((primary, frame) ∷ (backup, frame) ∷ []) (w, fs)).1.contents w.inbox
      ≡ some (unlines (ls ++ line ∷ line ∷ []))
unfolding receive_all receive
received_twice primary backup can_id dlc bytes w fs ls valid filled writable e =
    let cmd = command_of w can_id dlc bytes in
    let line = line_of cmd in
    let (first, same) = append_line w.inbox cmd.command_name cmd.extra_params ls fs writable e in
    let fs' = append_command_to_inbox w.inbox cmd.command_name cmd.extra_params fs in
    let writable' : fs'.writable w.inbox ≡ true = rw same writable in
    let (second, _) =
      append_line w.inbox cmd.command_name cmd.extra_params (ls ++ line ∷ []) fs' writable' first in
    rw (valid, filled) (second ∙ ap (λ ks. some (unlines ks)) (append_twice ls line))
