-- ===== src/Ipc/Failures.antt =====
-- What pcrf_ipc_cmd2remote of src/pcrf_ipc.cpp sends where the packet cannot be built.
use pcrf.Common.{
  ℕ, zero, suc, ◌-◌, ◌≡◌, ◌≤◌, ◌<◌, refl, ap, ◌++◌, Option, none, List, [], ◌∷◌, arith,
  Option-cases, inl, inr,
}
use pcrf.Common.Text.{Text}
use pcrf.Common.Lists.{take, drop, length, length-append}
use native.Mathlib.Nat.{mod-eq_of_lt}
use pcrf.Types.{SessionCache}
use pcrf.Ipc.Payload.{Item, fill_payload}
use pcrf.Ipc.Codes.{Codes, PsPacket}
use pcrf.Ipc.Pack.{
  packed, buf_size, attr_size, add_items, then_add, then_fail, command_items, fill_pspack,
  message_of, send_all, cmd2remote,
}

fill_payload-long :
    (it : Item)
    → 248 < length it.content
    → length it.content < 65536
    → fill_payload attr_size it ≡ none
unfolding fill_payload
fill_payload-long it long short = ground (arith, mod-eq_of_lt short)

length-take : (n : ℕ) (xs : Text) → n ≤ length xs → length (take n xs) ≡ n
length-take zero xs h = refl
length-take (suc n) [] h = omega (arith, h)
length-take (suc n) (x ∷ xs) h = ap suc (length-take n xs (omega (arith, h)))

length-drop : (n : ℕ) (xs : Text) → length (drop n xs) ≡ length xs - n
length-drop zero xs = omega arith
length-drop (suc n) [] = omega arith
length-drop (suc n) (x ∷ xs) = omega (arith, length-drop n xs)

-- A Session-Id of more than 248 bytes (and less than 2^16) does not fit into a payload. Whatever
-- the command is, the function then returns EINVAL, which is positive, and the sender takes it
-- for a length: each reachable node is sent exactly 22 bytes of the buffer, those of the packet that
-- was started and behind them what the stack held.
pub cmd2remote-long_session_id :
    (p : PsPacket) (k : Codes) (nodes : List (Option ℕ)) (sid : Text) (cache : Option SessionCache)
    (type : ℕ) (param : Option Text) (buf : Text)
    → 248 < length sid
    → length sid < 65536
    → length p.stack ≡ buf_size
    → p.init buf_size 0 type ≡ (0, buf)
    → let message = take 22 (buf ++ drop (length buf) p.stack) in
      (cmd2remote p k nodes sid cache type param ≡ send_all nodes message) × (length message ≡ 22)
unfolding cmd2remote fill_pspack message_of then_add then_fail
cmd2remote-long_session_id p k nodes sid cache type param buf long short room started =
    let too_long =
      fill_payload-long (record { vend_id = 0; avp_id = 263; content = sid }) long short in
    (
      elim (Option-cases (command_items k type cache param)) [
        | inl unknown ↦ ground (arith, started, unknown, too_long)
        | inr (its, known) ↦ ground (arith, started, known, too_long)
      ],
      length-take 22 (buf ++ drop (length buf) p.stack) (
          omega (
            arith,
            room,
            length-append buf (drop (length buf) p.stack),
            length-drop (length buf) p.stack,
          )),
    )

-- For a command that is not known, or without the record or the rule that it needs, no node is
-- sent anything, if the packet with the Session-Id could be built.
cmd2remote-unknown :
    (p : PsPacket) (k : Codes) (nodes : List (Option ℕ)) (sid : Text) (cache : Option SessionCache)
    (type : ℕ) (param : Option Text) (buf msg : Text)
    → p.init buf_size 0 type ≡ (0, buf)
    → add_items p k (record { vend_id = 0; avp_id = 263; content = sid } ∷ []) buf ≡ packed msg
    → command_items k type cache param ≡ none
    → cmd2remote p k nodes sid cache type param ≡ []
unfolding cmd2remote fill_pspack message_of then_fail
cmd2remote-unknown p k nodes sid cache type param buf msg started added unknown =
    ground (arith, started, added, unknown)
