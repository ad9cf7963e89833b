-- ===== src/Request/Parameters.antt =====
-- ffos/ota/src/ota/net/HttpParameter.cpp: what a reader finds in the parameters.
use code_snippet.Common.{ℕ, ◌≡◌, refl, List, [], ◌∷◌, Option, some, codes, arith, subst, sym}
use code_snippet.Json.{Json, IsText, IsObject, ReadsBack, Laws, get_string}
use code_snippet.Json.Objects.{build, member, build-IsObject, get-build}
use code_snippet.Request.{Device, get_device_info, or_null, load_parameter, get_parameters}

-- No NUL in a text of the device.
pub record IsPlain (d : Device) : Type 0 where
  pub serial_number : IsText d.serial_number
  pub product_name : IsText d.product_name
  pub manufacturer : IsText d.manufacturer
  pub hardware_version : IsText d.hardware_version
  pub version : IsText d.version
  pub mac : IsText d.mac
  pub platform : IsText d.platform

module _ (j : Json) where
  open j use {Value, parse, print, get, put, empty, text}

  -- An object with the seven texts.
  pub record Describes (v : Value) (d : Device) : Type 0 where
    pub serial_number : get_string j v (codes "serial_number") ≡ some d.serial_number
    pub product_name : get_string j v (codes "product_name") ≡ some d.product_name
    pub manufacturer : get_string j v (codes "manufacturer") ≡ some d.manufacturer
    pub hardware_version : get_string j v (codes "hardware_version") ≡ some d.hardware_version
    pub version : get_string j v (codes "version") ≡ some d.version
    pub mac : get_string j v (codes "mac") ≡ some d.mac
    pub platform : get_string j v (codes "platform") ≡ some d.platform

  -- What a request says to its reader.
  pub record Asks (request : List ℕ) (d : Device) : Type 0 where
    pub value : Value
    pub info : Value
    pub readable : parse request ≡ some value
    pub code : get_string j value (codes "code") ≡ some (codes "10000")
    pub device : get value (codes "device_info") ≡ some info
    pub described : Describes info d

  abbrev fields : Device → List (List ℕ × Value)
  fields d =
      (codes "platform", text d.platform)
      ∷ (codes "mac", text d.mac)
      ∷ (codes "version", text d.version)
      ∷ (codes "hardware_version", text d.hardware_version)
      ∷ (codes "manufacturer", text d.manufacturer)
      ∷ (codes "product_name", text d.product_name)
      ∷ (codes "serial_number", text d.serial_number)
      ∷ []

  module _ (laws : Laws j) where
    -- A text of the device is still there when its object has been printed and read twice.
    twice :
        (d : Device) (w m : Value) (k t : List ℕ)
        → ReadsBack j (build j (fields d)) w
        → ReadsBack j w m
        → IsText t
        → member j k (fields d) ≡ some (text t)
        → get_string j m k ≡ some t
    unfolding get_string
    twice d w m k t first second plain here =
        rw
          (second.text_kept k t plain
            (first.text_kept k t plain (get-build j laws (fields d) k (text t) here)))
          (laws.as_string-text t)

    described_twice :
        (d : Device) (w m : Value)
        → IsPlain d
        → ReadsBack j (build j (fields d)) w
        → ReadsBack j w m
        → Describes m d
    described_twice d w m plain first second = record {
      serial_number = twice d w m (codes "serial_number") _ first second plain.serial_number refl;
      product_name = twice d w m (codes "product_name") _ first second plain.product_name refl;
      manufacturer = twice d w m (codes "manufacturer") _ first second plain.manufacturer refl;
      hardware_version =
          twice d w m (codes "hardware_version") _ first second plain.hardware_version refl;
      version = twice d w m (codes "version") _ first second plain.version refl;
      mac = twice d w m (codes "mac") _ first second plain.mac refl;
      platform = twice d w m (codes "platform") _ first second plain.platform refl;
    }

    -- The parameters around a device object that has been read.
    abbrev around : Value → List (List ℕ × Value)
    around w = (codes "code", text (codes "10000")) ∷ (codes "device_info", w) ∷ []

    around-Asks :
        (d : Device) (w : Value)
        → IsPlain d
        → parse (get_device_info j d) ≡ some w
        → ReadsBack j (build j (fields d)) w
        → Asks (print (build j (around w))) d
    unfolding get_device_info get_string
    around-Asks d w plain read first =
        let (whole, parsed, kept) = laws.reads_back o (build-IsObject j (around w)) in
        let (m, here, second) =
          laws.member_reads_back o w whole (codes "device_info") (build-IsObject j (around w))
            (IsObject.read_again (build j (fields d)) w (build-IsObject j (fields d)) read)
            (get-build j laws (around w) (codes "device_info") w refl) parsed in
        record {
          value = whole;
          info = m;
          readable = parsed;
          code =
              rw
                (kept.text_kept (codes "code") (codes "10000") code_plain
                  (get-build j laws (around w) (codes "code") (text (codes "10000")) refl))
                (laws.as_string-text (codes "10000"));
          device = here;
          described = described_twice d w m plain first second;
        }
      where
        o : Value
        o = build j (around w)

        code_plain : IsText (codes "10000")
        code_plain = ground arith

    -- The text that GetParameters gives for any device without a NUL in its texts: its reader finds
    -- the code 10000 and an object with the seven texts of the device under their names, although that
    -- object has been printed and read once more on the way.
    pub get_parameters-Asks : (d : Device) → IsPlain d → Asks (get_parameters j d) d
    unfolding get_parameters load_parameter get_device_info
    get_parameters-Asks d plain =
        let (w, parsed, kept) =
          laws.reads_back (build j (fields d)) (build-IsObject j (fields d)) in
        subst (λ (v : Option Value). Asks (print (build j (around (or_null j v)))) d) (sym parsed)
          (around-Asks d w plain (unfold get_device_info in parsed) kept)
