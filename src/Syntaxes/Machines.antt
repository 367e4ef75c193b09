-- ===== src/Syntaxes/Machines.antt =====
-- The Ragel machines of src/syntaxes: their languages, as the files write them.
use Prim.Native.Char.{code}
use Prim.Native.String.{String}
use libdomain.Prelude.{ℕ, ◌+◌, Bool, CString}
use libdomain.Syntaxes.Grammar.{Grammar, epsilon, range, seq, alt, star, scans}

infixr 40 ◌or◌
infixr 45 ◌~◌
abbrev ◌or◌ : Grammar → Grammar → Grammar
a or b = alt a b

abbrev ◌~◌ : Grammar → Grammar → Grammar
a ~ b = seq a b

-- A byte, `g+`, `g?`, `g{2}` and `g{3}`.
abbrev pub byte : ℕ → Grammar
byte c = range c c

abbrev pub plus : Grammar → Grammar
plus g = seq g (star g)

abbrev optional : Grammar → Grammar
optional g = alt g epsilon

abbrev twice : Grammar → Grammar
twice g = seq g g

abbrev thrice : Grammar → Grammar
thrice g = seq g (twice g)

-- A text in any case, `"…"i`; the texts are in upper case.
abbrev pub any_case : String → Grammar
any_case String.[] = epsilon
any_case (String.◌∷◌ c rest) = seq (alt (byte (code c)) (byte (code c + 32))) (any_case rest)

abbrev pub boolean : Grammar
boolean = any_case "TRUE" or any_case "FALSE"

abbrev pub ldigit : Grammar
ldigit = range 0x31 0x39

abbrev pub digit : Grammar
digit = byte b'0' or ldigit

abbrev pub number : Grammar
number = digit or ldigit ~ plus digit

abbrev pub integer : Grammar
integer = byte b'-' ~ ldigit ~ star digit or number

abbrev pub numeric_string : Grammar
numeric_string = plus (digit or byte b' ')

abbrev pub octet_string : Grammar
octet_string = star (range 0x00 0xff)

abbrev alpha : Grammar
alpha = range 0x41 0x5a or range 0x61 0x7a

abbrev descr : Grammar
descr = alpha ~ star (alpha or digit or byte b'-')

abbrev numericoid : Grammar
numericoid = number ~ plus (byte b'.' ~ number)

abbrev pub oid : Grammar
oid = descr or numericoid

abbrev pub printable_string : Grammar
printable_string = plus (
    alpha
    or digit
    or byte 0x27
    or byte b'('
    or byte b')'
    or byte b'+'
    or byte b','
    or byte b'-'
    or byte b'.'
    or byte b'='
    or byte b'/'
    or byte b':'
    or byte b'?'
    or byte b' ')

abbrev pub ia5string : Grammar
ia5string = star (range 0x00 0x7f)

-- The bytes of UTF-8.
abbrev utf0 : Grammar
utf0 = range 0x80 0xbf

abbrev utfmb : Grammar
utfmb =
    range 0xc2 0xdf ~ utf0
    or (byte 0xe0 ~ range 0xa0 0xbf ~ utf0
        or range 0xe1 0xec ~ twice utf0
        or byte 0xed ~ range 0x80 0x9f ~ utf0
        or range 0xee 0xef ~ twice utf0)
    or (byte 0xf0 ~ range 0x90 0xbf ~ twice utf0
        or range 0xf1 0xf3 ~ thrice utf0
        or byte 0xf4 ~ range 0x80 0x8f ~ twice utf0)

abbrev pub directory_string : Grammar
directory_string = plus (range 0x00 0x7f or utfmb)

abbrev decimal : Grammar
decimal = range 0x30 0x39

abbrev month : Grammar
month = byte b'0' ~ range 0x31 0x39 or byte b'1' ~ range 0x30 0x32

abbrev day : Grammar
day = byte b'0' ~ range 0x31 0x39 or range 0x31 0x32 ~ decimal or byte b'3' ~ range 0x30 0x31

abbrev hour : Grammar
hour = range 0x30 0x31 ~ decimal or byte b'2' ~ range 0x30 0x33

abbrev minute : Grammar
minute = range 0x30 0x35 ~ decimal

abbrev second : Grammar
second = range 0x30 0x35 ~ decimal

abbrev sign : Grammar
sign = byte b'-' or byte b'+'

abbrev pub utc_time : Grammar
utc_time =
    twice decimal
    ~ month
    ~ day
    ~ hour
    ~ minute
    ~ optional second
    ~ optional (byte 0x5a or sign ~ hour ~ minute)

abbrev pub generalized_time : Grammar
generalized_time =
    twice decimal
    ~ twice decimal
    ~ month
    ~ day
    ~ hour
    ~ optional (minute ~ optional (second or byte b'6' ~ byte b'0'))
    ~ optional ((byte b'.' or byte b',') ~ plus decimal)
    ~ (byte 0x5a or sign ~ hour ~ optional minute)

-- The parts of distinguished names.
abbrev hexpair : Grammar
hexpair = twice (digit or range 0x41 0x46 or range 0x61 0x66)

abbrev escaped : Grammar
escaped = byte 0x22 or byte b'+' or byte b',' or byte b';' or byte b'<' or byte b'>'

abbrev pair : Grammar
pair = byte 0x5c ~ (byte 0x5c or (escaped or byte b' ' or byte b'#' or byte b'=') or hexpair)

abbrev leadchar : Grammar
leadchar =
    (range 0x01 0x1f
      or byte b'!'
      or range 0x24 0x2a
      or range 0x2d 0x3a
      or byte b'='
      or range 0x3f 0x5b
      or range 0x5d 0x7f)
    or utfmb

abbrev stringchar : Grammar
stringchar =
    (range 0x01 0x21
      or range 0x23 0x2a
      or range 0x2d 0x3a
      or byte b'='
      or range 0x3f 0x5b
      or range 0x5d 0x7f)
    or utfmb

abbrev trailchar : Grammar
trailchar =
    (range 0x01 0x1f
      or byte b'!'
      or range 0x23 0x2a
      or range 0x2d 0x3a
      or byte b'='
      or range 0x3f 0x5b
      or range 0x5d 0x7f)
    or utfmb

abbrev attribute_value : Grammar
attribute_value =
    optional ((leadchar or pair) ~ optional (star (stringchar or pair) ~ (trailchar or pair)))
    or byte b'#' ~ plus hexpair

abbrev relative_name : Grammar
relative_name = let one = oid ~ byte b'=' ~ attribute_value in one ~ star (byte b'+' ~ one)

abbrev pub distinguished_name : Grammar
distinguished_name = optional (relative_name ~ star (byte b',' ~ relative_name))

-- The functions that the machines are compiled to, on the bytes of a text.
unfoldable pub is_boolean : CString → Bool
is_boolean text = scans boolean text

unfoldable pub is_integer : CString → Bool
is_integer text = scans integer text

unfoldable pub is_octet_string : CString → Bool
is_octet_string text = scans octet_string text

unfoldable pub is_oid : CString → Bool
is_oid text = scans oid text

unfoldable pub is_numeric_string : CString → Bool
is_numeric_string text = scans numeric_string text

unfoldable pub is_printable_string : CString → Bool
is_printable_string text = scans printable_string text

unfoldable pub is_ia5string : CString → Bool
is_ia5string text = scans ia5string text

unfoldable pub is_directory_string : CString → Bool
is_directory_string text = scans directory_string text

unfoldable pub is_utc_time : CString → Bool
is_utc_time text = scans utc_time text

unfoldable pub is_generalized_time : CString → Bool
is_generalized_time text = scans generalized_time text

unfoldable pub is_dn : CString → Bool
is_dn text = scans distinguished_name text
