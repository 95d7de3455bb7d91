-- ===== src/Security/Policies.antt =====
-- The handlers of src/api/security.c for the policies and the configuration of Tetragon.
use cyrenus.Security.{
  read_path, unlink, policy_content, not_allowed, config_content, create_json_response, json_text,
  write_file, MhdResponse, Disk, Os,
}
use cyrenus.Api.Json.{JsonC}
use cyrenus.Prelude.{
  str_eq, ◌==◌, none, not, some, some, some, some, some, if◌then◌else◌, ◌++◌, Option, take, codes,
  Text, ℕ,
}

-- snprintf of "…/%s.yaml" into 512 bytes.
unfoldable pub policy_path : Text → Text
policy_path policy_name = take 511 (
    codes "/home/moh/Documents/cyrenus/config/tetragon/policies/" ++ (policy_name ++ codes ".yaml"))

unfoldable pub deployed_path : Text → Text
deployed_path policy_name =
    take 511 (codes "/etc/tetragon/policies/" ++ (policy_name ++ codes ".yaml"))

unfoldable pub deploy_command : Text → Text
deploy_command policy_name = take 2047 (
    codes "sudo cp '"
    ++ (policy_path policy_name
        ++ (codes "' '"
            ++ (deployed_path policy_name ++ codes "' && sudo systemctl restart tetragon"))))

abbrev pub restart : Text
restart = codes "sudo systemctl restart tetragon"

abbrev pub temporary : Text
temporary = codes "/tmp/tetragon_config_tmp.yaml"

abbrev pub config_path : Text
config_path = codes "/etc/tetragon/tetragon.yaml"

module _ {Row J : Type 0} (json : JsonC J) (os : Os) where
  abbrev pub found_policy : Text → Option Text → MhdResponse Row
  found_policy policy_name none = json_text 404 (codes "{\"error\":\"Policy not found\"}")
  found_policy policy_name (some content) =
      create_json_response 200 (policy_content policy_name content)

  unfoldable pub api_security_policy_get : Disk → Text → Text → MhdResponse Row
  api_security_policy_get disk method policy_name =
      if not (str_eq method (codes "GET"))
      then not_allowed
      else found_policy policy_name (read_path os disk (policy_path policy_name))

  -- The `content` of an upload, or the response that ends the handler.
  abbrev pub content_member :
      Option J → (Text → MhdResponse Row × Disk) → Disk → MhdResponse Row × Disk
  content_member none next disk =
      (json_text 400 (codes "{\"error\":\"Missing content field\"}"), disk)
  content_member (some content_obj) next disk = next (json.get_string content_obj)

  abbrev pub upload_json :
      Option J → (Text → MhdResponse Row × Disk) → Disk → MhdResponse Row × Disk
  upload_json none next disk = (json_text 400 (codes "{\"error\":\"Invalid JSON\"}"), disk)
  upload_json (some root) next disk = content_member (json.get_ex root (codes "content")) next disk

  abbrev pub upload_content :
      Option Text → ℕ → (Text → MhdResponse Row × Disk) → Disk → MhdResponse Row × Disk
  upload_content none size next disk =
      (json_text 400 (codes "{\"error\":\"No content provided\"}"), disk)
  upload_content (some upload_data) size next disk =
      if size == 0
      then (json_text 400 (codes "{\"error\":\"No content provided\"}"), disk)
      else upload_json (json.tokener_parse (some upload_data)) next disk

  abbrev pub write_policy : Disk → Text → Text → MhdResponse Row × Disk
  write_policy disk policy_name content =
      if os.writable (policy_path policy_name)
      then (
        json_text 200 (codes "{\"success\":true,\"message\":\"Policy saved\"}"),
        write_file os disk (policy_path policy_name) content,
      )
      else (json_text 500 (codes "{\"error\":\"Failed to write policy file\"}"), disk)

  unfoldable pub api_security_policy_save :
      Disk → Text → Text → Option Text → ℕ → MhdResponse Row × Disk
  api_security_policy_save disk method policy_name upload_data size =
      if not (str_eq method (codes "POST"))
      then (not_allowed, disk)
      else upload_content upload_data size (λ content. write_policy disk policy_name content) disk

  unfoldable pub api_security_policy_deploy : Disk → Text → Text → MhdResponse Row × Disk
  unfolding deploy_command
  api_security_policy_deploy disk method policy_name =
      let r = os.system (deploy_command policy_name) disk in
      if not (str_eq method (codes "POST")) then (not_allowed, disk) else (
        if r.0
            then json_text 200
                (codes "{\"success\":true,\"message\":\"Policy deployed and Tetragon restarted\"}")
            else json_text 500 (codes "{\"error\":\"Failed to deploy policy\"}"),
        r.1,
      )

  unfoldable pub api_security_policy_delete : Disk → Text → Text → MhdResponse Row × Disk
  unfolding policy_path deployed_path
  api_security_policy_delete disk method policy_name =
      let r = unlink os disk (policy_path policy_name) in
      if not (str_eq method (codes "DELETE"))
      then (not_allowed, disk)
      else if r.0
      then (
        json_text 200 (codes "{\"success\":true,\"message\":\"Policy deleted\"}"),
        (os.system restart (unlink os r.1 (deployed_path policy_name)).1).1,
      )
      else (json_text 500 (codes "{\"error\":\"Failed to delete policy\"}"), disk)

  abbrev pub found_config : Option Text → MhdResponse Row
  found_config none = json_text 404 (codes "{\"error\":\"Config file not found\"}")
  found_config (some content) = create_json_response 200 (config_content content)

  unfoldable pub api_security_config_get : Disk → Text → MhdResponse Row
  api_security_config_get disk method =
      if not (str_eq method (codes "GET"))
      then not_allowed
      else found_config (read_path os disk config_path)

  abbrev pub save_config : Disk → Text → MhdResponse Row × Disk
  save_config disk content =
      let r =
        os.system
          (codes
            "sudo cp /tmp/tetragon_config_tmp.yaml /etc/tetragon/tetragon.yaml && sudo systemctl restart tetragon")
          (write_file os disk temporary content) in
      if os.writable temporary
      then (
        if r.0
            then json_text 200 (
                codes
                  "{\"success\":true,\"message\":\"Configuration saved and Tetragon restarted\"}")
            else json_text 500 (codes "{\"error\":\"Failed to save configuration\"}"),
        r.1,
      )
      else (json_text 500 (codes "{\"error\":\"Failed to write config\"}"), disk)

  unfoldable pub api_security_config_save : Disk → Text → Option Text → ℕ → MhdResponse Row × Disk
  api_security_config_save disk method upload_data size =
      if not (str_eq method (codes "POST"))
      then (not_allowed, disk)
      else upload_content upload_data size (λ content. save_config disk content) disk
