-- ===== src/ConnectionModal/Save.antt =====
-- `validate`, `test`, `save` and the keys of the tab list. `parse_url` stands for the browser's
-- `new URL`, which throws (`none`) or gives the parts of the address.
use condui.Prelude.{
  ◌↔◌, ℕ, ◌≤◌, String, Bool, true, false, not, ◌&&◌, ◌||◌, Option, none, some, List, [], ◌∷◌, ◌≡◌,
  refl, arith, str_eq, ◌==◌, leb, if◌then◌else◌, length, any, filter,
}
use condui.Prelude.Int.{pos, negsuc}
use condui.Prelude.Text.{codes, trim, is_blank, lower, all}
use condui.ConnectionForm.{
  Access, Protocol, ssh, vnc, novnc, rdp, protocols, JsNumber, whole, other, has_access,
  default_protocol, Form, access_of_form,
}
use condui.ConnectionForm.Inherited.{default_protocol_lem}

pub data Refusal : Type 0 where
  invalid_url invalid_access rdp_required invalid_fingerprint ssh_required required : Refusal

pub record Url : Type 0 where
  pub protocol : String
  pub hostname : String
  pub username : String
  pub password : String
  pub hash : String

-- `Number.isInteger(Number(port)) && Number(port) >= 1 && Number(port) <= 65535`
abbrev pub is_port : JsNumber → Bool
is_port (whole (pos n)) = leb 1 n && leb n 65535
is_port (whole (negsuc _)) = false
is_port other = false

abbrev is_hex : ℕ → Bool
is_hex c = (leb b'0' c && leb c b'9') || (leb b'a' (lower c) && leb (lower c) b'f')

-- `/^[a-f0-9]{64}$/i.test(fingerprint.replaceAll(":", "").trim())`
pub is_fingerprint : String → Bool
is_fingerprint f =
    let digits = trim (filter (λ c. not (c == b':')) (codes f)) in
    length digits == 64 && all is_hex digits

-- a rule of `validate`: `if (test) throw …`, and the rules after it
abbrev pub throw_if : Bool → Refusal → Option Refusal → Option Refusal
throw_if true r rest = some r
throw_if false r rest = rest

abbrev pub is_web : String → Bool
is_web p = str_eq p "http:" || str_eq p "https:" || str_eq p "ws:" || str_eq p "wss:"

abbrev pub is_set : String → Bool
is_set t = not (str_eq t "")

check_url : Option Url → Option Refusal
check_url none = some invalid_url
check_url (some u) =
    throw_if
      (not (is_web u.protocol)
        || not (is_set u.hostname)
        || is_set u.username
        || is_set u.password
        || is_set u.hash)
      invalid_url none

-- the rule on host and port, which all but novnc share
abbrev bad_access : Form → JsNumber → Bool
bad_access f port = is_blank f.host || not (is_port port)

abbrev pub rdp_user : Form → String
rdp_user f = if f.rdp.desktop.reuse.user then f.username else f.rdp.desktop.username

rdp_access : (f : Form) → f.rdp.desktop.enabled ≡ true → has_access (access_of_form f) rdp ≡ true
unfolding has_access access_of_form
rdp_access f e = e

has_any :
    (a : Access) → any (has_access a) protocols ≡ true → has_access a (default_protocol a) ≡ true
has_any a h = ground (
  arith,
  (default_protocol_lem a).0 ssh,
  (default_protocol_lem a).0 vnc,
  (default_protocol_lem a).0 novnc,
  (default_protocol_lem a).0 rdp,
)

module _ (parse_url : String → Option Url) where
  -- `none` is a form that passes.
  unfoldable pub validate : Form → Protocol → Option Refusal
  unfolding check_url is_fingerprint
  validate f novnc = check_url (parse_url f.novnc.url)
  validate f vnc = throw_if (bad_access f f.vnc.port) invalid_access none
  validate f rdp = throw_if (bad_access f f.rdp.desktop.port) invalid_access (
      throw_if (is_blank (rdp_user f)) rdp_required (
        throw_if
          (not f.rdp.disable_tls
            && not f.rdp.allow_untrusted
            && is_set f.rdp.fingerprint
            && not (is_fingerprint f.rdp.fingerprint))
          invalid_fingerprint none))
  validate f ssh = throw_if (bad_access f f.port) invalid_access (
      throw_if
        (is_blank f.username || (str_eq f.auth_type "private_key" && is_blank f.private_key_path))
        ssh_required none)

  -- the loop over the protocols in `save`
  pub validate_all : List Protocol → Form → Option Refusal
  validate_all [] f = none
  validate_all (p ∷ ps) f =
      let rest = validate_all ps f in
      elim (if has_access (access_of_form f) p then validate f p else none) [
        | some r ↦ some r
        | none ↦ rest
      ]

  -- `save` up to the call of `onSave`: what stops it, or the protocol of the connection that is
  -- handed over
  unfoldable pub save : Form → Option Refusal × Protocol
  unfolding validate_all
  save f = (
    throw_if
        (is_blank f.name || is_blank f.host || not (any (has_access (access_of_form f)) protocols))
        required (validate_all protocols f),
    default_protocol (access_of_form f),
  )

  -- `save` hands the form over exactly if it has a name, a host and an access, and every access
  -- that is enabled validates; the protocol that it hands over is then enabled and valid.
  pub save_iff :
      (f : Form)
      → ((save f).0 ≡ none
          ↔ (is_blank f.name ≡ false)
            × (is_blank f.host ≡ false)
            × ((p : Protocol) → has_access (access_of_form f) p ≡ true → validate f p ≡ none)
            × (any (has_access (access_of_form f)) protocols ≡ true))
        × ((save f).0 ≡ none
            → (has_access (access_of_form f) (save f).1 ≡ true) × (validate f (save f).1 ≡ none))
  unfolding save
  save_iff f = ((λ h. (ground arith, ground arith, each h, ground arith), λ h. conv h), λ h. last h)
    where
      each :
          (save f).0 ≡ none
          → (p : Protocol) → has_access (access_of_form f) p ≡ true
          → validate f p ≡ none
      each h ssh a = ground arith
      each h vnc a = ground arith
      each h novnc a = ground arith
      each h rdp a = ground arith

      conv :
          (is_blank f.name ≡ false)
            × (is_blank f.host ≡ false)
            × ((p : Protocol) → has_access (access_of_form f) p ≡ true → validate f p ≡ none)
            × (any (has_access (access_of_form f)) protocols ≡ true)
          → (save f).0 ≡ none
      conv (n, k, v, a) = ground (arith, v ssh, v vnc, v novnc, v rdp)

      last :
          (save f).0 ≡ none
          → (has_access (access_of_form f) (default_protocol (access_of_form f)) ≡ true)
            × (validate f (default_protocol (access_of_form f)) ≡ none)
      last h =
          let d : has_access (access_of_form f) (default_protocol (access_of_form f)) ≡ true =
            has_any (access_of_form f) (ground arith) in
          (d, each h _ d)

  is_port_sound :
      (j : JsNumber) → is_port j ≡ true → (n : ℕ) × (j ≡ whole (pos n)) × (1 ≤ n) × (n ≤ 65535)
  is_port_sound (whole (pos n)) h = (n, refl, ground arith, ground arith)
  is_port_sound (whole (negsuc n)) h = cc
  is_port_sound other h = cc

  -- A form that is handed over with RDP enabled connects to an integral port from 1 to 65535 of a
  -- host that is not blank, with a user, and where the certificate is checked against a
  -- fingerprint, that is one of 64 hexadecimal digits.
  pub save-rdp :
      (f : Form)
      → (save f).0 ≡ none
      → f.rdp.desktop.enabled ≡ true
      → ((n : ℕ) × (f.rdp.desktop.port ≡ whole (pos n)) × (1 ≤ n) × (n ≤ 65535))
        × (is_blank f.host ≡ false)
        × (is_blank (rdp_user f) ≡ false)
        × (f.rdp.disable_tls ≡ false
            → f.rdp.allow_untrusted ≡ false
            → is_set f.rdp.fingerprint ≡ true
            → is_fingerprint f.rdp.fingerprint ≡ true)
  unfolding validate
  save-rdp f h e =
      let v : validate f rdp ≡ none = ((save_iff f).0.0 h).2 rdp (rdp_access f e) in
      (
        is_port_sound f.rdp.desktop.port (ground arith),
        ground arith,
        ground arith,
        λ a b c. ground arith,
      )
