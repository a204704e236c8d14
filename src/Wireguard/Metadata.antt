-- ===== src/Wireguard/Metadata.antt =====
-- `_load_metadata` and `_save_metadata`. The file is written beside and renamed, which is one step
-- here.
use keekars_pi_vpn.Base.{[], ok, err, if◌then◌else◌}
use keekars_pi_vpn.Base.Dict.{Dict}
use keekars_pi_vpn.WebApp.{
  unhandled, TunnelMeta, MetadataFile, absent, unreadable, holds, Site, Req,
}

-- What is not there, or cannot be read, counts as no tunnels.
unfoldable pub tunnels_in : MetadataFile → Dict TunnelMeta
tunnels_in absent = []
tunnels_in unreadable = []
tunnels_in (holds d) = d

module _ {World : Type 0} where
  unfoldable pub load_metadata : Req World (Dict TunnelMeta)
  unfolding tunnels_in
  load_metadata a = (ok (tunnels_in a.metadata), a)

module _ {World : Type 0} (site : Site World) where
  unfoldable pub save_metadata : Dict TunnelMeta → Req World (Unit {0})
  save_metadata d a =
      if site.saves a.host.outside
      then (ok tt, record a { metadata = holds d })
      else (err unhandled, a)
