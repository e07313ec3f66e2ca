-- ===== src/Portal/Tests.antt =====
-- A sign-in on the portal of provisioning.c, and a form.
use esp32_nut_bluetti.Prelude.{◌≡◌, refl, true, some, [], ◌∷◌, ◌++◌, List, replicate, arith}
use esp32_nut_bluetti.Prelude.Text.{Bytes, codes, bytes_eq, fit}
use esp32_nut_bluetti.Portal.Forms.{form_get, valid_ipv4, octets, part, octet}
use esp32_nut_bluetti.Portal.Forms.RoundTrip.{encode}
use esp32_nut_bluetti.Portal.Forms.RoundTrip.Fields.{Field, print, IsForm, form_get-print}
use esp32_nut_bluetti.Portal.Sessions.{hex_text}
use esp32_nut_bluetti.Portal.Sessions.SignedIn.{Visit, sign_in}

abbrev fields : List Field
fields =
    record { name = codes "user"; value = codes "admin" }
    ∷ record { name = codes "pass"; value = codes "a+b &c" }
    ∷ []

abbrev random : Bytes
random = replicate 16 0xA7

abbrev cookie : Bytes
cookie = codes "othersid=1; sid=" ++ hex_text random

print_test : print fields ≡ codes "user=admin&pass=a%2Bb+%26c"
unfolding encode
print_test = refl

ipv4_test : valid_ipv4 (codes "192.168.4.1") ≡ true
unfolding valid_ipv4 octets part octet
ipv4_test = refl

fields-IsForm : IsForm fields
unfolding encode
fields-IsForm = (
  (refl, (refl, (refl, (refl, tt)))),
  (refl, (refl, (refl, (refl, tt)))),
  (
    omega arith,
    omega arith,
    (
      omega arith,
      omega arith,
      (omega arith, omega arith, (omega arith, omega arith, (omega arith, omega arith, tt))),
    ),
  ),
  omega arith,
  (
    (refl, (refl, (refl, (refl, tt)))),
    (refl, (refl, (refl, (refl, tt)))),
    (
      omega arith,
      omega arith,
      (
        omega arith,
        omega arith,
        (
          omega arith,
          omega arith,
          (omega arith, omega arith, (omega arith, omega arith, (omega arith, omega arith, tt))),
        ),
      ),
    ),
    omega arith,
    tt,
  ),
)

form_get-print_example : form_get (print fields) (codes "pass") 80 ≡ (fit 80 (codes "a+b &c"), true)
unfolding bytes_eq
form_get-print_example = form_get-print fields (codes "pass") (codes "a+b &c") 80 fields-IsForm refl

abbrev morning : List Visit
morning = sign_in 26 (some (print fields)) 100 random ∷ []
