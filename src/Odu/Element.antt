-- ===== src/Odu/Element.antt =====
-- The 3GPP template of the O-DU, `init` as far as it registers it, and `load_3gpp_data`.
use sim_o1_ofhmp_interfaces.Prelude.{
  String, false, none, some, List, [], ◌∷◌, ◌++◌, ◌≡◌, refl, string_eq, ap, ◌∙◌,
}
use sim_o1_ofhmp_interfaces.Prelude.Result.{Result, ok}
use sim_o1_ofhmp_interfaces.Prelude.Exec.{Exec, modify, continue, ◌>>=◌, ◌>>◌}
use sim_o1_ofhmp_interfaces.Value.{Key, name, index, Value, str, num, get_path}
use sim_o1_ofhmp_interfaces.DictFactory.{update_key}
use sim_o1_ofhmp_interfaces.DictFactory.Plant.{Diverge}
use sim_o1_ofhmp_interfaces.DictFactory.Update.{Sets, update_key-set}
use sim_o1_ofhmp_interfaces.DictFactory.Registry.{find, add_template, get_template}
use sim_o1_ofhmp_interfaces.Server.{running, Device, set_data, fields, items}
use sim_o1_ofhmp_interfaces.Server.Endpoints.{template, updated}

abbrev pub managed_element : Value
managed_element = fields (
    (
      "_3gpp-common-managed-element:ManagedElement",
      items (
          fields (
            ("id", str "ManagedElement-001")
            ∷ ("attributes", fields (("priorityLabel", num 1) ∷ []))
            ∷ (
              "_3gpp-nr-nrm-gnbdufunction:GNBDUFunction",
              items (
                  fields (
                    ("id", str "GNBDUFunction-001")
                    ∷ (
                      "attributes",
                      fields (
                          ("priorityLabel", num 1)
                          ∷ ("gNBId", num 1)
                          ∷ ("gNBIdLength", num 24)
                          ∷ ("gNBDUId", num 1)
                          ∷ ("gNBDUName", str "to_be_replaced")
                          ∷ []),
                    )
                    ∷ (
                      "_3gpp-nr-nrm-nrcelldu:NRCellDU",
                      items (
                          fields (
                            ("id", str "NRCellDU-001")
                            ∷ (
                              "attributes",
                              fields (
                                  ("priorityLabel", num 1)
                                  ∷ ("cellLocalId", num 1)
                                  ∷ (
                                    "pLMNInfoList",
                                    items (
                                        fields (
                                          ("mcc", str "310")
                                          ∷ ("mnc", str "410")
                                          ∷ ("sst", num 1)
                                          ∷ ("sd", str "ff:ff:ff")
                                          ∷ [])
                                        ∷ fields (
                                            ("mcc", str "310")
                                            ∷ ("mnc", str "410")
                                            ∷ ("sst", num 2)
                                            ∷ ("sd", str "ff:ff:ff")
                                            ∷ [])
                                        ∷ fields (
                                            ("mcc", str "310")
                                            ∷ ("mnc", str "410")
                                            ∷ ("sst", num 3)
                                            ∷ ("sd", str "ff:ff:ff")
                                            ∷ [])
                                        ∷ fields (
                                            ("mcc", str "310")
                                            ∷ ("mnc", str "410")
                                            ∷ ("sst", num 4)
                                            ∷ ("sd", str "ff:ff:ff")
                                            ∷ [])
                                        ∷ fields (
                                            ("mcc", str "310")
                                            ∷ ("mnc", str "410")
                                            ∷ ("sst", num 5)
                                            ∷ ("sd", str "ff:ff:ff")
                                            ∷ [])
                                        ∷ fields (
                                            ("mcc", str "310")
                                            ∷ ("mnc", str "410")
                                            ∷ ("sst", num 6)
                                            ∷ ("sd", str "ff:ff:ff")
                                            ∷ [])
                                        ∷ []),
                                  )
                                  ∷ (
                                    "nPNIdentityList",
                                    items (
                                        fields (
                                          ("idx", num 0)
                                          ∷ (
                                            "plmnid",
                                            items (
                                                fields
                                                  (("mcc", str "310") ∷ ("mnc", str "410") ∷ [])
                                                ∷ []),
                                          )
                                          ∷ ("cAGIdList", str "cAGIdList1")
                                          ∷ ("nIDList", str "nIDList1")
                                          ∷ [])
                                        ∷ []),
                                  )
                                  ∷ ("nRPCI", num 1)
                                  ∷ ("arfcnDL", num 1)
                                  ∷ ("rimRSMonitoringStartTime", str "2024-06-19T20:00:00Z")
                                  ∷ ("rimRSMonitoringStopTime", str "2024-06-19T21:00:00Z")
                                  ∷ ("rimRSMonitoringWindowDuration", num 1)
                                  ∷ ("rimRSMonitoringWindowStartingOffset", num 1)
                                  ∷ ("rimRSMonitoringWindowPeriodicity", num 1)
                                  ∷ ("rimRSMonitoringOccasionInterval", num 1)
                                  ∷ ("rimRSMonitoringOccasionStartingOffset", num 0)
                                  ∷ ("ssbFrequency", num 1)
                                  ∷ ("ssbPeriodicity", num 5)
                                  ∷ ("ssbSubCarrierSpacing", num 15)
                                  ∷ ("ssbOffset", num 1)
                                  ∷ ("ssbDuration", num 1)
                                  ∷ (
                                    "nRSectorCarrierRef",
                                    items (str "CN=NR-Sector-Carrier-001" ∷ []),
                                  )
                                  ∷ ("victimSetRef", str "CN=Victim-Set-001")
                                  ∷ ("aggressorSetRef", str "CN=Aggressor-Set-001")
                                  ∷ []),
                            )
                            ∷ [])
                          ∷ []),
                    )
                    ∷ [])
                  ∷ []),
            )
            ∷ [])
          ∷ []),
    )
    ∷ [])

-- `Main.init`, as far as it changes the registry.
unfoldable pub init : Exec Device (Unit {0})
unfolding add_template
init =
    modify (λ s. record s {
      templates = add_template s.templates "3gpp-managed-element" managed_element;
    })

-- The path above `gNBDUName`.
abbrev pub to_attributes : List Key
to_attributes =
    name "_3gpp-common-managed-element:ManagedElement"
    ∷ index 0
    ∷ name "_3gpp-nr-nrm-gnbdufunction:GNBDUFunction"
    ∷ index 0
    ∷ name "attributes"
    ∷ []

-- `load_3gpp_data`, with the host name of the container. A batch on a session merges.
unfoldable pub load_3gpp_data : String → Exec Device (Unit {0})
unfolding template updated
load_3gpp_data hostname = do
  v ← template "3gpp-managed-element"
  w ← updated v (to_attributes ++ name "gNBDUName" ∷ []) (str hostname)
  set_data running "_3gpp-common-managed-element" w "merge"

module _ (hostname : String) (d : Device) where
  -- The device with the template.
  abbrev known : Device
  known = record d { templates = ("3gpp-managed-element", managed_element) ∷ d.templates }

  init-eq : find d.templates "3gpp-managed-element" ≡ none → init d ≡ (ok tt, known)
  unfolding init
  init-eq e = rw (e, add_template) refl

  abbrev replaced : Result Value
  replaced =
      update_key managed_element (to_attributes ++ name "gNBDUName" ∷ []) (str hostname) false

  abbrev pub writes_one : Value → Device
  writes_one w = record known {
    writes =
        d.writes
        ++ record {
          datastore = running;
          xpath = "_3gpp-common-managed-element";
          contents = w;
          operation = "merge";
        }
          ∷ [];
  }

  load_3gpp_data-eq :
      (w : Value) → replaced ≡ ok w → load_3gpp_data hostname known ≡ (ok tt, writes_one w)
  unfolding load_3gpp_data template updated get_template find
  load_3gpp_data-eq w e =
      ap (λ r. continue r (λ w. set_data running "_3gpp-common-managed-element" w "merge") known) e

  -- On a device where no other template has the name, `init` and `load_3gpp_data` return and write one
  -- value to the running datastore: the host name stands at `gNBDUName`, and every path that parts
  -- from it leads to what it leads to in the template.
  pub load_3gpp_data-written :
      find d.templates "3gpp-managed-element" ≡ none
      → (w : Value) × ((init >> load_3gpp_data hostname) d ≡ (ok tt, writes_one w))
        × (get_path w (to_attributes ++ name "gNBDUName" ∷ []) ≡ some (str hostname))
        × ((q : List Key)
            → Diverge (to_attributes ++ name "gNBDUName" ∷ []) q
            → get_path w q ≡ get_path managed_element q)
  unfolding get_path
  load_3gpp_data-written e =
      let (w, set, here, apart) : Sets managed_element to_attributes (name "gNBDUName")
          (str hostname) replaced (str hostname) =
        update_key-set managed_element to_attributes (name "gNBDUName") (str hostname) _ refl in
      (
        w,
        ap (λ r. continue r.0 (λ _. load_3gpp_data hostname) r.1) (init-eq e)
            ∙ load_3gpp_data-eq w set,
        here,
        apart,
      )
