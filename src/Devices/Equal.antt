-- ===== src/Devices/Equal.antt =====
-- `devicesEqual` of device_watcher.go, which compares two devices by all their fields.
use adbq.Prelude.{
  ◌≡◌, refl, List, [], ◌∷◌, Bool, true, false, ◌&&◌, Text, text_eq, text_eq_iff, text_eq_refl,
}
use adbq.Prelude.Int.{ℤ, int_eq, int_eq-inv, int_eq_refl}
use adbq.Devices.{Device}

bool_eq : Bool → Bool → Bool
bool_eq true b = b
bool_eq false true = false
bool_eq false false = true

-- `==` on the struct, in three parts: what the list shows, the build, and root and the network
same_listing : Device → Device → Bool
unfolding bool_eq
same_listing a b =
    text_eq a.id b.id
    && (text_eq a.state b.state
        && (bool_eq a.online b.online
            && (text_eq a.via b.via
                && (text_eq a.transport b.transport
                    && (text_eq a.label b.label
                        && (text_eq a.model b.model && text_eq a.product b.product))))))

same_build : Device → Device → Bool
unfolding bool_eq
same_build a b =
    text_eq a.manufacturer b.manufacturer
    && (text_eq a.android_version b.android_version
        && (int_eq a.sdk b.sdk
            && (text_eq a.build_id b.build_id
                && (text_eq a.kernel b.kernel && (text_eq a.cpu b.cpu && text_eq a.arch b.arch)))))

same_access : Device → Device → Bool
unfolding bool_eq
same_access a b =
    bool_eq a.root b.root
    && (text_eq a.root_method b.root_method
        && (bool_eq a.root_pending b.root_pending
            && (text_eq a.ip b.ip
                && (text_eq a.wifi b.wifi
                    && (text_eq a.mac b.mac && text_eq a.hardware_serial b.hardware_serial)))))

unfoldable pub device_eq : Device → Device → Bool
unfolding same_listing same_build same_access
device_eq a b = same_listing a b && (same_build a b && same_access a b)

unfoldable pub devices_equal : List Device → List Device → Bool
devices_equal [] [] = true
devices_equal (a ∷ xs) (b ∷ ys) = device_eq a b && devices_equal xs ys
devices_equal xs ys = false

both : (x y : Bool) → (x && y) ≡ true → (x ≡ true) × (y ≡ true)
both true y h = (refl, h)
both false y h = cc

bool_eq-inv : (a b : Bool) → bool_eq a b ≡ true → a ≡ b
unfolding bool_eq
bool_eq-inv true true h = refl
bool_eq-inv true false h = cc
bool_eq-inv false true h = cc
bool_eq-inv false false h = refl

text_and : (s t : Text) (y : Bool) → (text_eq s t && y) ≡ true → (s ≡ t) × (y ≡ true)
text_and s t y h = let (e, r) = both (text_eq s t) y h in ((text_eq_iff s t).0 e, r)

bool_and : (a b y : Bool) → (bool_eq a b && y) ≡ true → (a ≡ b) × (y ≡ true)
bool_and a b y h = let (e, r) = both (bool_eq a b) y h in (bool_eq-inv a b e, r)

int_and : (a b : ℤ) (y : Bool) → (int_eq a b && y) ≡ true → (a ≡ b) × (y ≡ true)
int_and a b y h = let (e, r) = both (int_eq a b) y h in (int_eq-inv a b e, r)

abbrev SameListing : Device → Device → Type 0
SameListing a b =
    (a.id ≡ b.id)
    × (a.state ≡ b.state)
    × (a.online ≡ b.online)
    × (a.via ≡ b.via)
    × (a.transport ≡ b.transport)
    × (a.label ≡ b.label)
    × (a.model ≡ b.model)
    × (a.product ≡ b.product)

same_listing-SameListing : (a b : Device) → same_listing a b ≡ true → SameListing a b
unfolding same_listing
same_listing-SameListing a b h =
    let (e0, h0) = text_and a.id b.id _ h in
    let (e1, h1) = text_and a.state b.state _ h0 in
    let (e2, h2) = bool_and a.online b.online _ h1 in
    let (e3, h3) = text_and a.via b.via _ h2 in
    let (e4, h4) = text_and a.transport b.transport _ h3 in
    let (e5, h5) = text_and a.label b.label _ h4 in
    let (e6, h6) = text_and a.model b.model _ h5 in
    (e0, e1, e2, e3, e4, e5, e6, (text_eq_iff a.product b.product).0 h6)

abbrev SameBuild : Device → Device → Type 0
SameBuild a b =
    (a.manufacturer ≡ b.manufacturer)
    × (a.android_version ≡ b.android_version)
    × (a.sdk ≡ b.sdk)
    × (a.build_id ≡ b.build_id)
    × (a.kernel ≡ b.kernel)
    × (a.cpu ≡ b.cpu)
    × (a.arch ≡ b.arch)

same_build-SameBuild : (a b : Device) → same_build a b ≡ true → SameBuild a b
unfolding same_build
same_build-SameBuild a b h =
    let (e0, h0) = text_and a.manufacturer b.manufacturer _ h in
    let (e1, h1) = text_and a.android_version b.android_version _ h0 in
    let (e2, h2) = int_and a.sdk b.sdk _ h1 in
    let (e3, h3) = text_and a.build_id b.build_id _ h2 in
    let (e4, h4) = text_and a.kernel b.kernel _ h3 in
    let (e5, h5) = text_and a.cpu b.cpu _ h4 in
    (e0, e1, e2, e3, e4, e5, (text_eq_iff a.arch b.arch).0 h5)

abbrev SameAccess : Device → Device → Type 0
SameAccess a b =
    (a.root ≡ b.root)
    × (a.root_method ≡ b.root_method)
    × (a.root_pending ≡ b.root_pending)
    × (a.ip ≡ b.ip)
    × (a.wifi ≡ b.wifi)
    × (a.mac ≡ b.mac)
    × (a.hardware_serial ≡ b.hardware_serial)

same_access-SameAccess : (a b : Device) → same_access a b ≡ true → SameAccess a b
unfolding same_access
same_access-SameAccess a b h =
    let (e0, h0) = bool_and a.root b.root _ h in
    let (e1, h1) = text_and a.root_method b.root_method _ h0 in
    let (e2, h2) = bool_and a.root_pending b.root_pending _ h1 in
    let (e3, h3) = text_and a.ip b.ip _ h2 in
    let (e4, h4) = text_and a.wifi b.wifi _ h3 in
    let (e5, h5) = text_and a.mac b.mac _ h4 in
    (e0, e1, e2, e3, e4, e5, (text_eq_iff a.hardware_serial b.hardware_serial).0 h5)

-- two devices that the test takes for the same are the same
device_eq-inv : (a b : Device) → device_eq a b ≡ true → a ≡ b
unfolding device_eq
device_eq-inv a b h =
    let (h0, h') = both (same_listing a b) (same_build a b && same_access a b) h in
    let (h1, h2) = both (same_build a b) (same_access a b) h' in
    let p = same_listing-SameListing a b h0 in
    let q = same_build-SameBuild a b h1 in
    let r = same_access-SameAccess a b h2 in
    λ i. record {
      id = p.0 i;
      state = p.1 i;
      online = p.2 i;
      via = p.3 i;
      transport = p.4 i;
      label = p.5 i;
      model = p.6 i;
      product = p.7 i;
      manufacturer = q.0 i;
      android_version = q.1 i;
      sdk = q.2 i;
      build_id = q.3 i;
      kernel = q.4 i;
      cpu = q.5 i;
      arch = q.6 i;
      root = r.0 i;
      root_method = r.1 i;
      root_pending = r.2 i;
      ip = r.3 i;
      wifi = r.4 i;
      mac = r.5 i;
      hardware_serial = r.6 i;
    }

pub devices_equal-inv : (xs ys : List Device) → devices_equal xs ys ≡ true → xs ≡ ys
unfolding devices_equal
devices_equal-inv [] [] h = refl
devices_equal-inv [] (y ∷ ys) h = cc
devices_equal-inv (x ∷ xs) [] h = cc
devices_equal-inv (x ∷ xs) (y ∷ ys) h =
    let (e, r) = both (device_eq x y) (devices_equal xs ys) h in
    let q = device_eq-inv x y e in let qs = devices_equal-inv xs ys r in cc

bool_eq_refl : (a : Bool) → bool_eq a a ≡ true
unfolding bool_eq
bool_eq_refl true = refl
bool_eq_refl false = refl

device_eq_refl : (a : Device) → device_eq a a ≡ true
unfolding device_eq same_listing same_build same_access
device_eq_refl a = simp (text_eq_refl, bool_eq_refl, int_eq_refl)

pub devices_equal_refl : (xs : List Device) → devices_equal xs xs ≡ true
unfolding devices_equal
devices_equal_refl [] = refl
devices_equal_refl (x ∷ xs) = rw (device_eq_refl x) (devices_equal_refl xs)
