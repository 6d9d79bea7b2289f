-- ===== src/Issues/Texts/Hreflang.antt =====
-- Codes of alternate languages (isValidHreflangCode in internal/issues/pagelocal.go).
pub mod Codes
use seo_crawler_mcp.Prelude.{
  ℕ, ◌-◌, Bool, true, false, ◌&&◌, Option, none, some, List, [], ◌∷◌, Bytes, codes, if◌then◌else◌,
  leb, ◌==◌, length, all, bytes_mem, to_lower, index_byte, take, drop, suc, map, ◌≡◌, ◌↔◌, ◌⊎◌, inl,
  inr, refl, arith, Bool-cases, Option-cases, ◌≤◌, ◌++◌, sym, subst, ◌∙◌, ap,
}
use seo_crawler_mcp.Prelude.Split.{HasNoByte}

unfoldable pub iso_639_1 : List Bytes
iso_639_1 =
    codes "aa"
    ∷ codes "ab"
    ∷ codes "af"
    ∷ codes "ak"
    ∷ codes "am"
    ∷ codes "an"
    ∷ codes "ar"
    ∷ codes "as"
    ∷ codes "av"
    ∷ codes "ay"
    ∷ codes "az"
    ∷ codes "ba"
    ∷ codes "be"
    ∷ codes "bg"
    ∷ codes "bh"
    ∷ codes "bi"
    ∷ codes "bm"
    ∷ codes "bn"
    ∷ codes "bo"
    ∷ codes "br"
    ∷ codes "bs"
    ∷ codes "ca"
    ∷ codes "ce"
    ∷ codes "ch"
    ∷ codes "co"
    ∷ codes "cr"
    ∷ codes "cs"
    ∷ codes "cu"
    ∷ codes "cv"
    ∷ codes "cy"
    ∷ codes "da"
    ∷ codes "de"
    ∷ codes "dv"
    ∷ codes "dz"
    ∷ codes "ee"
    ∷ codes "el"
    ∷ codes "en"
    ∷ codes "eo"
    ∷ codes "es"
    ∷ codes "et"
    ∷ codes "eu"
    ∷ codes "fa"
    ∷ codes "ff"
    ∷ codes "fi"
    ∷ codes "fj"
    ∷ codes "fo"
    ∷ codes "fr"
    ∷ codes "fy"
    ∷ codes "ga"
    ∷ codes "gd"
    ∷ codes "gl"
    ∷ codes "gn"
    ∷ codes "gu"
    ∷ codes "gv"
    ∷ codes "ha"
    ∷ codes "he"
    ∷ codes "hi"
    ∷ codes "ho"
    ∷ codes "hr"
    ∷ codes "ht"
    ∷ codes "hu"
    ∷ codes "hy"
    ∷ codes "hz"
    ∷ codes "ia"
    ∷ codes "id"
    ∷ codes "ie"
    ∷ codes "ig"
    ∷ codes "ii"
    ∷ codes "ik"
    ∷ codes "io"
    ∷ codes "is"
    ∷ codes "it"
    ∷ codes "iu"
    ∷ codes "ja"
    ∷ codes "jv"
    ∷ codes "ka"
    ∷ codes "kg"
    ∷ codes "ki"
    ∷ codes "kj"
    ∷ codes "kk"
    ∷ codes "kl"
    ∷ codes "km"
    ∷ codes "kn"
    ∷ codes "ko"
    ∷ codes "kr"
    ∷ codes "ks"
    ∷ codes "ku"
    ∷ codes "kv"
    ∷ codes "kw"
    ∷ codes "ky"
    ∷ codes "la"
    ∷ codes "lb"
    ∷ codes "lg"
    ∷ codes "li"
    ∷ codes "ln"
    ∷ codes "lo"
    ∷ codes "lt"
    ∷ codes "lu"
    ∷ codes "lv"
    ∷ codes "mg"
    ∷ codes "mh"
    ∷ codes "mi"
    ∷ codes "mk"
    ∷ codes "ml"
    ∷ codes "mn"
    ∷ codes "mr"
    ∷ codes "ms"
    ∷ codes "mt"
    ∷ codes "my"
    ∷ codes "na"
    ∷ codes "nb"
    ∷ codes "nd"
    ∷ codes "ne"
    ∷ codes "ng"
    ∷ codes "nl"
    ∷ codes "nn"
    ∷ codes "no"
    ∷ codes "nr"
    ∷ codes "nv"
    ∷ codes "ny"
    ∷ codes "oc"
    ∷ codes "oj"
    ∷ codes "om"
    ∷ codes "or"
    ∷ codes "os"
    ∷ codes "pa"
    ∷ codes "pi"
    ∷ codes "pl"
    ∷ codes "ps"
    ∷ codes "pt"
    ∷ codes "qu"
    ∷ codes "rm"
    ∷ codes "rn"
    ∷ codes "ro"
    ∷ codes "ru"
    ∷ codes "rw"
    ∷ codes "sa"
    ∷ codes "sc"
    ∷ codes "sd"
    ∷ codes "se"
    ∷ codes "sg"
    ∷ codes "si"
    ∷ codes "sk"
    ∷ codes "sl"
    ∷ codes "sm"
    ∷ codes "sn"
    ∷ codes "so"
    ∷ codes "sq"
    ∷ codes "sr"
    ∷ codes "ss"
    ∷ codes "st"
    ∷ codes "su"
    ∷ codes "sv"
    ∷ codes "sw"
    ∷ codes "ta"
    ∷ codes "te"
    ∷ codes "tg"
    ∷ codes "th"
    ∷ codes "ti"
    ∷ codes "tk"
    ∷ codes "tl"
    ∷ codes "tn"
    ∷ codes "to"
    ∷ codes "tr"
    ∷ codes "ts"
    ∷ codes "tt"
    ∷ codes "tw"
    ∷ codes "ty"
    ∷ codes "ug"
    ∷ codes "uk"
    ∷ codes "ur"
    ∷ codes "uz"
    ∷ codes "ve"
    ∷ codes "vi"
    ∷ codes "vo"
    ∷ codes "wa"
    ∷ codes "wo"
    ∷ codes "xh"
    ∷ codes "yi"
    ∷ codes "yo"
    ∷ codes "za"
    ∷ codes "zh"
    ∷ codes "zu"
    ∷ []

unfoldable pub to_upper_byte : ℕ → ℕ
to_upper_byte c = if leb b'a' c && leb c b'z' then c - 32 else c

unfoldable pub to_upper : Bytes → Bytes
to_upper s = map to_upper_byte s

-- `strings.SplitN(code, "-", 2)`: the text before the first dash, and what is behind it if there is one.
unfoldable pub split_code : Bytes → Bytes × Option Bytes
split_code code = elim (index_byte code b'-') [
  | none ↦ (code, none)
  | some i ↦ (take i code, some (drop (suc i) code))
]

unfoldable pub is_region : Bytes → Bool
is_region region = length region == 2 && all (λ ch. leb b'A' ch && leb ch b'Z') region

unfoldable pub is_valid_hreflang_code : Bytes → Bool
is_valid_hreflang_code code =
    let (first, rest) = split_code code in
    if bytes_mem (to_lower first) iso_639_1
    then elim rest [ none ↦ true | some region ↦ is_region (to_upper region) ]
    else false
