-- ===== src/Sealed/Networks.antt =====
-- sealed.py: what an Owner decides about inspected networks.
use rustdesk_managed_directo.Common.{
  ℕ, String, Bool, true, false, not, ◌&&◌, none, some, List, ◌==◌, str_eq, if◌then◌else◌, select,
  exists_where, find_where, update_where,
}
use rustdesk_managed_directo.Http.{http, Tx, raise, raise_if, gets, modify, pure, ◌>>=◌, ◌>>◌}
use rustdesk_managed_directo.Store.Queries.{found}
use rustdesk_managed_directo.Sealed.{Outside, NetworkStatus, pending, Network, Inspection}

pub data NetworkScope : Type 0 where
  address netblock : NetworkScope

abbrev pub is_pending : NetworkStatus → Bool
is_pending pending = true
is_pending _ = false

-- DELETE FROM inspection_networks WHERE …, with the observations' ON DELETE CASCADE
unfoldable pub delete_networks : (Network → Bool) → Inspection → Inspection
delete_networks p s =
    let kept = select (λ n. not (p n)) s.networks in
    record s {
      networks = kept;
      observations = select (λ o. exists_where (λ n. n.id == o.network_id) kept) s.observations;
    }

-- The network that a decision is about: its own address, or the registered block.
unfoldable pub claim_block : Outside → Network → NetworkScope → Tx Inspection String
claim_block outside n address s = pure n.cidr s
claim_block outside n netblock s = elim n.rdap_netblock [
  | none ↦ raise (http 409 "No registered address block is known for this network") s
  | some block ↦
      (do
        modify (
            delete_networks
              (λ m. outside.inside m.cidr block && not (m.id == n.id) && is_pending m.status))
        taken ← gets (λ t. exists_where (λ m. str_eq m.cidr block && not (m.id == n.id)) t.networks)
        raise_if taken (http 409 "That address block already has its own entry")
        pure block)
        s
]

unfoldable pub set_decision : ℕ → ℕ → NetworkStatus → String → String → List Network → List Network
set_decision now id status cidr owner networks =
    update_where (λ m. m.id == id)
      (λ m. record m {
        status = status;
        cidr = cidr;
        decided_by = if is_pending status then none else some owner;
        decided_at = if is_pending status then none else some now;
      })
      networks

-- `decide_network`, for a decision and a scope that it knows
unfoldable pub decide_network :
    Outside → ℕ → ℕ → NetworkStatus → NetworkScope → String → Tx Inspection String
decide_network outside now id status scope owner = do
  n ← (λ s. found (find_where (λ m. m.id == id) s.networks) (http 404 "Network not found") s)
  cidr ← claim_block outside n scope
  modify (λ s. record s { networks = set_decision now id status cidr owner s.networks })
  pure cidr

-- `forget_network`
unfoldable pub forget_network : ℕ → Tx Inspection (Unit {0})
forget_network id = do
  known ← gets (λ s. exists_where (λ m. m.id == id) s.networks)
  raise_if (not known) (http 404 "Network not found")
  modify (delete_networks (λ m. m.id == id))

-- `set_device_policy`, for 'auto' or 'strict'
unfoldable pub set_device_policy : ℕ → Bool → Tx Inspection (Unit {0})
set_device_policy device strict = do
  known ← gets (λ s. exists_where (λ d. d.device_id == device) s.devices)
  raise_if (not known) (http 404 "Device not found")
  modify (λ s. record s {
    devices =
        update_where (λ d. d.device_id == device) (λ d. record d { is_strict = strict }) s.devices;
  })
