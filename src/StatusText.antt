-- ===== src/StatusText.antt =====
-- clusterstate/api/utils.go: the text that shows a status. How a time is printed is a parameter.
use auto_repair.Common.{ℕ, zero, suc, ◌-◌, String, ◌<>◌, List, [], ◌∷◌, if◌then◌else◌, str_eq}
use Prim.Native.String.{count}
use auto_repair.Status.{ClusterAutoscalerCondition, NodeGroupStatus, ClusterAutoscalerStatus}

-- The verb %-12v of package fmt: at least so many characters, filled up on the right.
spaces : ℕ → String
spaces zero = ""
spaces (suc n) = " " <> spaces n

abbrev pad_right : ℕ → String → String
pad_right n s = s <> spaces (n - count s)

-- What the loop of `getConditionsString` has found.
pub record Lines : Type 0 where
  pub health : String
  pub scale_up : String
  pub scale_down : String
  pub other : String

module _ (show_time : ℕ → String) (prefix : String) where
  -- The lines on a condition.
  unfoldable pub condition_lines : ClusterAutoscalerCondition → String
  unfolding spaces
  condition_lines c =
      prefix
      <> (pad_right 12 (c.type <> ":")
          <> (" "
              <> (c.status
                  <> ((if str_eq c.message "" then "" else " (" <> (c.message <> ")"))
                      <> ("\n"
                          <> (prefix
                              <> (spaces 13
                                  <> ("LastProbeTime:      "
                                      <> (show_time c.last_probe_time
                                          <> ("\n"
                                              <> (prefix
                                                  <> (spaces 13
                                                      <> ("LastTransitionTime: "
                                                          <> (show_time c.last_transition_time
                                                            <> "\n"))))))))))))))

  -- The switch on the type: a later condition of one of the three types takes the earlier one's place.
  unfoldable pub add_lines : ClusterAutoscalerCondition → Lines → Lines
  unfolding condition_lines
  add_lines c found =
      let line = condition_lines c in
      if str_eq c.type "Health"
      then record found { health = line }
      else if str_eq c.type "ScaleUp"
      then record found { scale_up = line }
      else if str_eq c.type "ScaleDown"
      then record found { scale_down = line }
      else record found { other = found.other <> line }

  unfoldable pub lines_loop : List ClusterAutoscalerCondition → Lines → Lines
  unfolding add_lines
  lines_loop [] found = found
  lines_loop (c ∷ cs) found = lines_loop cs (add_lines c found)

  unfoldable pub get_conditions_string : List ClusterAutoscalerCondition → String
  unfolding lines_loop
  get_conditions_string cs =
      let found = lines_loop cs (record {
        health = prefix <> (pad_right 12 "Health:" <> " <unknown>");
        scale_up = "";
        scale_down = "";
        other = "";
      }) in
      found.health <> (found.scale_up <> (found.scale_down <> found.other))

module _ (show_time : ℕ → String) where
  unfoldable pub node_groups_string : List NodeGroupStatus → String
  unfolding get_conditions_string
  node_groups_string [] = ""
  node_groups_string (g ∷ gs) =
      get_conditions_string show_time "  " g.conditions <> ("\n" <> node_groups_string gs)

  -- `GetReadableString`
  unfoldable pub get_readable_string : ClusterAutoscalerStatus → String
  unfolding get_conditions_string node_groups_string
  get_readable_string status =
      "Cluster-wide:\n"
      <> (get_conditions_string show_time "  " status.clusterwide_conditions
          <> (groups status.node_group_statuses))
    where
      groups : List NodeGroupStatus → String
      groups [] = ""
      groups (g ∷ gs) = "\nNodeGroups:\n" <> node_groups_string (g ∷ gs)
