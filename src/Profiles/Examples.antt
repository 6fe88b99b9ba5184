-- ===== src/Profiles/Examples.antt =====
-- A profile with a hosts step, and a rooted phone on which everything works.
use mathlib.Core.Path.{subst}
use adbq.Prelude.{
  ℕ, ◌≡◌, ◌≢◌, refl, arith, [], ◌∷◌, none, some, true, false, inl, inr, has_prefix, Text, codes,
  text_eq,
}
use mathlib.Core.Path.{subst}
use adbq.Prelude.Int.{pos}
use adbq.Strings.{drop_while}
use adbq.Dict.{Dict, lookup}
use adbq.FactStore.{Client, cached_fact}
use adbq.FactStore.Domains.{Domain, domain_of}
use adbq.FactStore.Invalidation.{Among}
use adbq.Tasks.{new_task_manager}
use adbq.Profiles.{Profile, ProfileStore, Io, domains, scan_id, new_profile_store, delete_profile}
use adbq.Profiles.Ids.{NumbersBelow, new_profile_store-NumbersBelow}
use adbq.Profiles.Bindings.{unbound_option, delete_profile-everywhere}
use adbq.Profiles.Device.{done, fault, Details, Actions}
use adbq.Profiles.Apply.{App, apply_profile, run_steps}
use adbq.Profiles.Apply.Stale.{cached_fact-apply_profile}
use adbq.Profiles.Apply.Adopted.{Adopts, apply_profile-Adopts}
use adbq.Profiles.Preview.{Plans, previews}
use adbq.Profiles.Preview.Shown.{AllAgree, previews-AllAgree}

abbrev ad_block : Profile
ad_block = record {
  id = codes "p-2";
  name = codes "block ads";
  created_at = 1;
  updated_at = 1;
  frida = record {
    enabled = false;
    version = [];
    auto_arch = true;
    arch = [];
    start = false;
    iface = [];
    port = pos 0;
  };
  forwards = record { enabled = false; forwards = []; reverses = [] };
  proxy = record { enabled = true; host_port = []; port = pos 0 };
  hosts = record { enabled = true; content = codes "0.0.0.0 ads"; flush_dns = true };
  cert = record { enabled = false; pem = []; subject = [] };
  iptables = record { enabled = false; v4_blob = []; v6_blob = [] };
}

abbrev on_disk : Dict Profile
on_disk = (codes "p-2", ad_block) ∷ []

abbrev store : ProfileStore
store = record {
  on_disk = true;
  seq = 2;
  profiles = on_disk;
  devices = [];
  profiles_file = on_disk;
  devices_file = [];
}

opened : new_profile_store true (some on_disk) none ≡ store
unfolding new_profile_store scan_id has_prefix drop_while
opened = refl

abbrev works : Io
works = record { written = true; renamed = true }

store-NumbersBelow : NumbersBelow store.seq store.profiles
store-NumbersBelow =
    subst (λ s. NumbersBelow s.seq s.profiles) opened
      (new_profile_store-NumbersBelow true (some on_disk) none)

abbrev unsaved : Profile
unsaved = record ad_block { id = [] }

delete_profile-everywhere_example :
    let (saved, s') = delete_profile works works (codes "p-2") store in
    (lookup (codes "p-2") s'.profiles ≡ none)
    × ((k : Text) → k ≢ codes "p-2" → lookup k s'.profiles ≡ lookup k store.profiles)
    × ((k : Text) → lookup k s'.devices ≡ unbound_option (codes "p-2") (lookup k store.devices))
    × (saved ≡ true
        → store.on_disk ≡ true
        → (s'.profiles_file ≡ s'.profiles) × (s'.devices_file ≡ s'.devices))
delete_profile-everywhere_example = delete_profile-everywhere works works (codes "p-2") store

abbrev phone : Text
phone = codes "R58M"

abbrev rooted : Details
rooted = record { id = phone; hardware_serial = phone; root = true }

abbrev willing : (D : Type 0) → Actions D
willing D = record {
  details = λ d. (done rooted, d);
  read_only = λ fam d. (false, d);
  import_iptables = λ fam blob d. (none, d);
  apply_hosts = λ content d. (done (record { strategy = codes "direct"; needs_reboot = false }), d);
  save_hosts_config = λ content d. d;
  flush_dns = λ d. d;
  stage_cert = λ pem d. (fault [], d);
  install_cert = λ path d. (fault [], d);
  remove_staged = λ path d. d;
  frida_arch = λ d. (none, d);
  frida_releases = λ arch d. (none, d);
  frida_servers = λ d. (none, d);
  install_frida = λ version arch d. (([], fault []), d);
  start_frida = λ path iface port d. (none, d);
  list_forwards = λ d. (none, d);
  list_reverses = λ d. (none, d);
  add_forward = λ local remote d. (none, d);
  add_reverse = λ remote local d. (none, d);
  suggest_proxy = λ port d. (none, d);
  get_proxy = λ d. (none, d);
  set_proxy = λ target d. (none, d);
}

abbrev app : App ℕ ℕ
app = record {
  world = (0, record { facts = []; caps = []; su_styles = []; su_failed_at = []; adb_rooted = [] });
  tasks = new_task_manager;
  store = store;
  started = true;
  stale = [];
}

ad_block_here : lookup (codes "p-2") app.store.profiles ≡ some ad_block
unfolding lookup text_eq
ad_block_here = refl

routes_net : domain_of (codes "net.routes") ≡ some Domain.net
unfolding domain_of text_eq
routes_net = refl

net-Among : Among Domain.net (domains ad_block)
unfolding domains
net-Among = inr (inl refl)

cached_fact-apply_profile_example :
    cached_fact
      (apply_profile (willing (ℕ × Client ℕ)) phone works 9 (codes "p-2") app).1.world.1
      (codes "net.routes")
      phone
      []
      5
      6
    ≡ none
cached_fact-apply_profile_example =
    cached_fact-apply_profile (willing (ℕ × Client ℕ)) phone works 9 (codes "p-2") app ad_block
      (codes "net.routes") Domain.net ad_block_here routes_net net-Among (omega arith) [] 5 6

apply_profile-Adopts_example :
    Adopts rooted
      (codes "p-2")
      app
      (apply_profile (willing (ℕ × Client ℕ)) phone works 9 (codes "p-2") app)
apply_profile-Adopts_example =
    apply_profile-Adopts (willing (ℕ × Client ℕ)) phone works 9 (codes "p-2") app ad_block rooted
      ad_block_here refl

abbrev plans : Plans
plans = record {
  render = λ cmd root. cmd;
  hosts = λ content. [];
  cert = [];
  frida_install = λ port. [];
  frida_start = λ port. [];
}

previews-AllAgree_example :
    AllAgree
      (previews plans phone rooted ad_block)
      (run_steps (willing ℕ) phone (codes "t-1") rooted ad_block ([], 0, new_task_manager)).0
previews-AllAgree_example =
    previews-AllAgree (willing ℕ) phone plans (codes "t-1") rooted ad_block 0 new_task_manager
