-- ===== src/Profiles/Records.antt =====
-- The records of internal/adb/profiles.go: a profile with its steps, a device that was seen, and the
-- store that keeps them.
use adbq.Prelude.{ℕ, List, [], ◌∷◌, ◌++◌, Bool, if◌then◌else◌, Text}
use adbq.Prelude.Int.{ℤ}
use adbq.Dict.{Dict}
use adbq.FactStore.Domains.{Domain}

pub record FridaStep : Type 0 where
  pub enabled : Bool
  pub version : Text
  pub auto_arch : Bool
  pub arch : Text
  pub start : Bool
  pub iface : Text
  pub port : ℤ

-- `ForwardSpec` and `ReverseSpec`, which have the same two fields
pub record PortSpec : Type 0 where
  pub local : Text
  pub remote : Text

pub record ForwardsStep : Type 0 where
  pub enabled : Bool
  pub forwards : List PortSpec
  pub reverses : List PortSpec

pub record ProxyStep : Type 0 where
  pub enabled : Bool
  pub host_port : Text
  pub port : ℤ

pub record HostsStep : Type 0 where
  pub enabled : Bool
  pub content : Text
  pub flush_dns : Bool

pub record CertStep : Type 0 where
  pub enabled : Bool
  pub pem : Text
  pub subject : Text

pub record IptablesStep : Type 0 where
  pub enabled : Bool
  pub v4_blob : Text
  pub v6_blob : Text

pub record Profile : Type 0 where
  pub id : Text
  pub name : Text
  pub created_at : ℕ
  pub updated_at : ℕ
  pub frida : FridaStep
  pub forwards : ForwardsStep
  pub proxy : ProxyStep
  pub hosts : HostsStep
  pub cert : CertStep
  pub iptables : IptablesStep

abbrev when : Bool → List Domain → List Domain
when b ds = if b then ds else []

-- `Profile.Domains`
unfoldable pub domains : Profile → List Domain
domains p =
    when p.iptables.enabled (Domain.iptables ∷ [])
    ++ (when p.hosts.enabled (Domain.hosts ∷ Domain.net ∷ [])
        ++ (when p.cert.enabled (Domain.certs ∷ [])
            ++ (when p.frida.enabled (Domain.frida ∷ Domain.files ∷ Domain.storage ∷ [])
                ++ (when p.forwards.enabled (Domain.forwards ∷ [])
                    ++ when p.proxy.enabled (Domain.proxy ∷ Domain.net ∷ [])))))

pub record DeviceRecord : Type 0 where
  pub key : Text
  pub adb_serial : Text
  pub hardware_serial : Text
  pub label : Text
  pub model : Text
  pub manufacturer : Text
  pub first_seen : ℕ
  pub last_seen : ℕ
  pub bound_profile_id : Text

-- `on_disk` tells whether there is a directory for the files; without one nothing is saved
pub record ProfileStore : Type 0 where
  pub on_disk : Bool
  pub seq : ℕ
  pub profiles : Dict Profile
  pub devices : Dict DeviceRecord
  pub profiles_file : Dict Profile
  pub devices_file : Dict DeviceRecord

-- whether the temporary file is written and then renamed
pub record Io : Type 0 where
  pub written : Bool
  pub renamed : Bool
