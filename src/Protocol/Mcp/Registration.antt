-- ===== src/Protocol/Mcp/Registration.antt =====
-- The limits on tools and resources.
use goichi.Prelude.{ℕ, ◌≤◌, ◌≡◌, ap, List, [], ◌∷◌, length, arith, inl, inr, Bool-cases}
use goichi.Prelude.Int.{pos, at_least}
use goichi.Http.Maps.{length-insert}
use goichi.Protocol.Mcp.{McpServer, Tool, Resource, register_tool, register_resource}

-- A registration of a tool or of a resource.
pub data Registration (S : Type 0) : Type 0 where
  tool : Tool S → Registration S
  resource : Resource → Registration S

abbrev pub register : {S : Type 0} → Registration S → McpServer S → McpServer S
register (tool t) ms = (register_tool t ms).0
register (resource r) ms = (register_resource r ms).0

abbrev pub register_all : {S : Type 0} → List (Registration S) → McpServer S → McpServer S
register_all [] ms = ms
register_all (r ∷ rs) ms = register_all rs (register r ms)

-- The limits are `most_tools` and `most_resources`, and the tables keep to them.
pub record IsWithinLimits {S : Type 0} (most_tools most_resources : ℕ) (ms : McpServer S)
    : Type 0 where
  pub tool_limit : ms.config.max_tool_count ≡ pos most_tools
  pub resource_limit : ms.config.max_resource_count ≡ pos most_resources
  pub tools_within : length ms.tools ≤ most_tools
  pub resources_within : length ms.resources ≤ most_resources

module _ {S : Type 0} (most_tools most_resources : ℕ) where
  register-IsWithinLimits :
      (r : Registration S) (ms : McpServer S)
      → IsWithinLimits most_tools most_resources ms
      → IsWithinLimits most_tools most_resources (register r ms)
  unfolding register_tool register_resource
  register-IsWithinLimits (tool t) ms l =
      let same = ap (at_least (length ms.tools)) l.tool_limit in
      elim (Bool-cases (at_least (length ms.tools) ms.config.max_tool_count)) [
        | inl full ↦ rw (full, register) l
        | inr free ↦
            rw (free, register)
              (record {
                tool_limit = l.tool_limit;
                resource_limit = l.resource_limit;
                tools_within = ground (arith, free, same, length-insert t.name t ms.tools);
                resources_within = l.resources_within;
              })
      ]
  register-IsWithinLimits (resource r) ms l =
      let same = ap (at_least (length ms.resources)) l.resource_limit in
      elim (Bool-cases (at_least (length ms.resources) ms.config.max_resource_count)) [
        | inl full ↦ rw (full, register) l
        | inr free ↦
            rw (free, register)
              (record {
                tool_limit = l.tool_limit;
                resource_limit = l.resource_limit;
                tools_within = l.tools_within;
                resources_within = ground (arith, free, same, length-insert r.uri r ms.resources);
              })
      ]

  -- No registrations bring the tables of tools and resources above limits that they kept to before.
  pub register_all-IsWithinLimits :
      (rs : List (Registration S)) (ms : McpServer S)
      → IsWithinLimits most_tools most_resources ms
      → IsWithinLimits most_tools most_resources (register_all rs ms)
  register_all-IsWithinLimits [] ms l = l
  register_all-IsWithinLimits (r ∷ rs) ms l =
      register_all-IsWithinLimits rs (register r ms) (register-IsWithinLimits r ms l)
