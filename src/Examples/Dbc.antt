-- ===== src/Examples/Dbc.antt =====
-- internal/dbc on concrete payloads.
use go_mdf.Base.{◌≡◌, refl, ◌-◌, ◌^◌, true, false, some, [], ◌∷◌, arith, ok}
use go_mdf.Base.Words.{Bytes, le_value, be_value}
use go_mdf.Dbc.Decode.{Signal, raw_little, raw_big}
use go_mdf.Dbc.Little.{raw_little_lem}
use go_mdf.Dbc.Sign.{signed_raw, multiplexer, mux_value_of, signed_raw_lem, mux_value_of_lem}
use go_mdf.Dbc.Big.{raw_big_lem}

abbrev payload : Bytes
payload = 0x12 ∷ 0x34 ∷ 0x56 ∷ 0x78 ∷ 0x9a ∷ 0xbc ∷ 0xde ∷ 0xf0 ∷ 0x11 ∷ []

-- 62 bits, which reach into the ninth byte.
abbrev intel : Signal
intel = record {
  start_bit = 4;
  len = 62;
  big_endian = false;
  signed = false;
  is_multiplexer = false;
}

abbrev motorola : Signal
motorola = record {
  start_bit = 4;
  len = 62;
  big_endian = true;
  signed = false;
  is_multiplexer = false;
}

raw_little_lem_example : raw_little intel payload ≡ ok (some 0x1f0debc9a7856341)
unfolding le_value
raw_little_lem_example = raw_little_lem intel payload (omega arith) (omega arith) (omega arith)

raw_big_lem_example : raw_big motorola payload ≡ ok (some 0x2468acf13579bde0)
unfolding be_value
raw_big_lem_example = raw_big_lem motorola payload (omega arith) (omega arith) (omega arith)

-- Ten bits at bit 4: 0x341, and as a signed number of ten bits -191.
abbrev switch : Signal
switch = record {
  start_bit = 4;
  len = 10;
  big_endian = false;
  signed = true;
  is_multiplexer = true;
}

first_switch : multiplexer (intel ∷ switch ∷ []) ≡ some switch
unfolding multiplexer
first_switch = refl

signed_raw_lem_example : signed_raw switch 0x341 ≡ 2 ^ 64 - 191
signed_raw_lem_example = signed_raw_lem switch 0x341 refl (omega arith) (omega arith) (omega arith)

mux_value_of_lem_example : mux_value_of (intel ∷ switch ∷ []) payload ≡ ok (some (2 ^ 64 - 191))
unfolding le_value
mux_value_of_lem_example =
    mux_value_of_lem (intel ∷ switch ∷ []) switch payload first_switch refl (omega arith)
      (omega arith) (omega arith)
