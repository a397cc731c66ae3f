-- ===== src/Manager/Registry.antt =====
-- The registry of providers: registrar, registered, getRegisterInfo and askProviderInfo,
-- src/manager/service-manager.ts.
use distributed_rpc_js.Common.{
  ◌≡◌, refl, ◌∙◌, ap, Bool, true, false, ◌&&◌, Option, none, some, List, [], ◌∷◌, if◌then◌else◌,
}
use distributed_rpc_js.Types.{PeerIdentity, ApiCall}
use distributed_rpc_js.Manager.{
  ServiceManager, RegisterInfo, put_provider, registrar, registered, get_register_info,
  ask_provider_info, provider_of,
}
use distributed_rpc_js.Manager.Recent.{same_peer, get_in-set_in}

-- The key under which a registration is stored.
abbrev pub key_of : {I : Type 0} → RegisterInfo I → PeerIdentity
key_of info = record { service = info.name; instance_id = info.id }

abbrev pub is_present : Option PeerIdentity → Bool
is_present none = false
is_present (some p) = true

-- The latest registration under a key, of those whose message has a peer.
abbrev pub latest :
    {I : Type 0}
    → PeerIdentity
    → Option (RegisterInfo I)
    → List (ApiCall (RegisterInfo I))
    → Option (RegisterInfo I)
latest p found [] = found
latest p found (c ∷ cs) =
    latest p (if is_present c.peer && same_peer (key_of c.args) p then some c.args else found) cs

module _ {I R : Type 0} where
  registered-get :
      (o : Option PeerIdentity) (info : RegisterInfo I) (p : PeerIdentity) (sm : ServiceManager I R)
      → get_register_info p (registered o info sm)
        ≡ (if is_present o && same_peer (key_of info) p then some info else get_register_info p sm)
  unfolding registered put_provider get_register_info
  registered-get none info p sm = refl
  registered-get (some q) info p sm = get_in-set_in (key_of info) p info sm.services

  registered-reports :
      (o : Option PeerIdentity) (info : RegisterInfo I) (sm : ServiceManager I R)
      → (registered o info sm).reports ≡ sm.reports
  unfolding registered put_provider
  registered-reports none info sm = refl
  registered-reports (some q) info sm = refl

  unfoldable pub register_all :
      List (ApiCall (RegisterInfo I)) → ServiceManager I R → ServiceManager I R
  register_all [] sm = sm
  register_all (c ∷ cs) sm = register_all cs (registrar c sm)

  -- After any registrations a peer is found exactly as it registered last under that name and id,
  -- or as it was found before if no message registers it, and the reports are untouched.
  pub get_register_info-register_all :
      (calls : List (ApiCall (RegisterInfo I))) (p : PeerIdentity) (sm : ServiceManager I R)
      → (get_register_info p (register_all calls sm) ≡ latest p (get_register_info p sm) calls)
        × ((register_all calls sm).reports ≡ sm.reports)
  unfolding register_all registrar
  get_register_info-register_all [] p sm = (refl, refl)
  get_register_info-register_all (c ∷ cs) p sm =
      let (found, same) = get_register_info-register_all cs p (registrar c sm) in
      (
        found ∙ ap (λ o. latest p o cs) (registered-get c.peer c.args p sm),
        same ∙ registered-reports c.peer c.args sm,
      )

  -- The connection information that a requester is given is that of the latest registration under
  -- this name and id, or the one known before if there is none.
  pub ask_provider_info-register_all :
      (calls : List (ApiCall (RegisterInfo I))) (p : PeerIdentity) (sm : ServiceManager I R)
      → ask_provider_info p (register_all calls sm)
        ≡ provider_of (latest p (get_register_info p sm) calls)
  unfolding ask_provider_info
  ask_provider_info-register_all calls p sm =
      ap provider_of (get_register_info-register_all calls p sm).0
