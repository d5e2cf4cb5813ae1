-- ===== src/Transport/Strings.antt =====
-- StringDataType of injection/src/plugins/dataTypes/generic.cpp, for strings of `limit` bytes.
use vnv.Base.{
  ℕ, zero, suc, ◌+◌, ◌<◌, ◌≤◌, ◌≡◌, ◌≢◌, refl, ap, [], ◌∷◌, ◌++◌, none, some, Outcome, ok, raise,
  vnv_exception, fault, arith, length, length-append, leb, if◌then◌else◌, All, nat_key, Str,
}
use vnv.Base.Dict.{Dict}
use vnv.Transport.{Memory, DataType, cells}
use vnv.Transport.Packing.{Travels}

pub record StringData : Type 0 where
  pub key : ℕ
  pub text : Str

-- A C string, up to its zero byte.
abbrev pub and_byte : ℕ → Outcome Str → Outcome Str
and_byte b (ok s) = ok (b ∷ s)
and_byte b (raise e) = raise e

abbrev pub c_string : Memory → Outcome Str
c_string [] = raise fault
c_string (none ∷ m) = raise fault
c_string (some zero ∷ m) = ok []
c_string (some (suc b) ∷ m) = and_byte (suc b) (c_string m)

abbrev pub read_text : StringData → Outcome Str → Outcome StringData
read_text d (ok s) = ok (record d { text = s })
read_text d (raise e) = raise e

module _ (limit : ℕ) where
  -- The size that is tested is that of the string that the object has.
  abbrev pub set_text : Str → StringData → Outcome StringData
  set_text s d =
      if leb limit (length d.text) then raise vnv_exception else ok (record d { text = s })

  abbrev pub string_type : DataType StringData
  string_type = record {
    get_key = λ d. d.key;
    set_key = λ k d. record d { key = k };
    max_size = λ d. 1 + limit;
    pack = λ d. d.text ++ 0 ∷ [];
    unpack = λ d m. read_text d (c_string m);
  }

  abbrev NoZero : Str → Type 0
  NoZero s = All (λ b. b ≢ 0) s

  c_string-cells :
      (s : Str) (rest : Memory) → NoZero s → c_string (cells (s ++ 0 ∷ []) ++ rest) ≡ ok s
  c_string-cells [] rest h = refl
  c_string-cells (zero ∷ s) rest (h, hs) = absurd (h refl)
  c_string-cells (suc b ∷ s) rest (h, hs) = ap (and_byte (suc b)) (c_string-cells s rest hs)

  -- A string without a zero byte and of at most `limit` bytes travels.
  pub string-Travels :
      (store : Dict ℕ StringData) (d : StringData)
      → NoZero d.text
      → length d.text ≤ limit
      → Travels string_type store d.key (1 + limit) d
  string-Travels store d h short = record {
    has_key = refl;
    has_size = refl;
    fits = omega (arith, length-append d.text (0 ∷ []));
    reads_back =
        λ o rest e. ap (read_text (record o { key = d.key })) (c_string-cells d.text rest h);
  }

  pub set_unbounded :
      (s : Str) (d : StringData)
      → length d.text < limit
      → limit < length s
      → (d' : StringData) × (set_text s d ≡ ok d')
        × (string_type.max_size d' < length (string_type.pack d'))
  set_unbounded s d short long =
      (record d { text = s }, ground arith, omega (arith, length-append s (0 ∷ [])))
